-- ===== src/Memory.antt =====
-- src/a2a_superhub/memory.py: the memory plane. `Notes` has the notes, their errors and who may
-- read them; `Ops` the tables of ops.sqlite; `Delivery` who is sent a note; `Inbox` the offline
-- inbox and its cursors; `Timeline` and `Graph` what a principal is shown of the notes.
pub mod Notes
pub mod Ops
pub mod Access
pub mod Delivery
pub mod Inbox
pub mod Timeline
pub mod Graph
pub mod Watcher
mod ViewTests
mod Tests
