-- ===== src/Commands.antt =====
-- The management commands that repair stored bookings and reviews.
pub mod Reslot
pub mod Stale
mod Tests
