-- ===== src/Store.antt =====
-- src/a2a_superhub/store.py: the durable task, event and agent store, and the terminal outbox.
pub mod Tables
pub mod Tasks
pub mod Agents
pub mod Outbox
pub mod Numbering
pub mod Invariant
pub mod Runs
pub mod Finality
pub mod Replay
pub mod Progress
mod Tests
