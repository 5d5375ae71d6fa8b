-- ===== src/Data.antt =====
-- The database rows of apps/bookings/models.py and apps/ingestion/models.py, and the dynamic
-- values that the services read and write by column name.
mod Columns
mod Calendar
mod Tables
pub use Columns.*
pub use Calendar.*
pub use Tables.*
