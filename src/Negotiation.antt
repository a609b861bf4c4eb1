-- ===== src/Negotiation.antt =====
-- packages/negotiation: what the agent may offer on a call, and what it may say about price.
pub mod Policy
pub mod Authorization
pub mod Objections
pub mod Catalog
pub mod Session
