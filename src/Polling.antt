-- ===== src/Polling.antt =====
-- apps/ingestion/polling.py: the lock on a mailbox and the cursor of its history.
pub mod Lock
pub mod Exclusion
pub mod Recovery
pub mod Decimal
pub mod Cycle
pub mod Messages
pub mod Poll
pub mod Counted
pub mod Polled
pub mod Cursor
pub mod Pending
pub mod Limit
mod Tests
