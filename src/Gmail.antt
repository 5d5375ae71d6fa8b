-- ===== src/Gmail.antt =====
-- apps/ingestion/gmail_client.py: the listing of messages over the pages of the Gmail API, and the
-- parts of a message.
pub mod Client
mod Tests
