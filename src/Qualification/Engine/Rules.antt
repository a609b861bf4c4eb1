-- ===== src/Qualification/Engine/Rules.antt =====
-- What `applyUtterance` guarantees.
pub mod Returns
pub mod Asked
pub mod Final
