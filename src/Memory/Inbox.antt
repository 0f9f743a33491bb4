-- ===== src/Memory/Inbox.antt =====
-- The offline inbox of memory.py: cursor tokens, fetching a page, and acknowledging it.
pub mod Cursor
pub mod Fetch
pub mod Acknowledge
pub mod Binding
pub mod Outcome
pub mod Page
pub mod Positions
pub mod Repeats
pub mod Receipts
mod Tests
