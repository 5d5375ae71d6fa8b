-- ===== src/Core.antt =====
-- apps/core: the masking of contact texts.
pub mod Privacy
pub mod Hiding
pub mod Masking
mod Tests
