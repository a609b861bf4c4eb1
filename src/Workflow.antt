-- ===== src/Workflow.antt =====
-- packages/workflows: the automation engine.
pub mod Run
pub mod Engine
