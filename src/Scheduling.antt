-- ===== src/Scheduling.antt =====
-- The booking page: src/services/scheduling/ and src/workers/jobs/scheduling_reminders.py.
pub mod Slots
pub mod Bookings
pub mod Availability
pub mod Questions
pub mod Booking
pub mod Reminders
mod Tests
