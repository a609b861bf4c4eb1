-- ===== src/Scheduling.antt =====
-- packages/scheduling: appointments.
pub mod Status
pub mod Timezone
pub mod Availability
pub mod Booking
pub mod Reminders
