-- ===== src/Examples.antt =====
-- Each property at a concrete input.
mod Scheduling
mod Slots
mod Speech
mod Booking
mod Outreach
mod Providers
mod Memory
mod Lifecycle
mod Audio
mod Conversation
mod Voice
mod Calls
mod Dispositions
mod Platform
mod Negotiation
mod Catalogs
mod Workflow
mod Delivery
mod Qualification
