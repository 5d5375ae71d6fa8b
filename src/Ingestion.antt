-- ===== src/Ingestion.antt =====
-- The services of apps/ingestion/services.py, by part.
pub mod Parsed
pub mod Environment
pub mod Providers
pub mod Text
pub mod Aliases
pub mod Slots
pub mod Update
pub mod Create
pub mod Identity
pub mod Ignored
pub mod Followup
pub mod Upsert
pub mod Process
pub mod Store
pub mod Failed
mod Tests
