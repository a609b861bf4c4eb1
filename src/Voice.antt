-- ===== src/Voice.antt =====
-- packages/voice: calls.
pub mod CallState
pub mod Audio
pub mod Endpointer
pub mod CallStore
