-- ===== src/Bookings.antt =====
-- The services of apps/bookings/services.py, by part.
pub mod Schedules
pub mod Capacity
pub mod Overrides
pub mod Errors
pub mod Queue
pub mod Reviews
pub mod Rows
pub mod Internal
pub mod Warnings
pub mod Labels
pub mod Summary
mod Tests
