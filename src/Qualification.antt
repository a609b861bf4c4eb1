-- ===== src/Qualification.antt =====
-- packages/qualification: asking the tenant's questions and keeping the answers.
pub mod Snapshot
pub mod Schema
pub mod Engine
pub mod Disposition
