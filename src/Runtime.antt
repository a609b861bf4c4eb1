-- ===== src/Runtime.antt =====
-- packages/runtime: the turn of a conversation.
pub mod Text
pub mod Assembler
pub mod Validator
pub mod Speech
pub mod State
pub mod Memory
pub mod Tools
pub mod Turn
