-- ===== src/Store/Invariant.antt =====
-- What every transaction of the store keeps: the numbering of events, the state of a task as the
-- last state in its log, and one outbox row for each task that has ended.
pub mod Growth
pub mod Events
pub mod Writes
pub mod Creation
