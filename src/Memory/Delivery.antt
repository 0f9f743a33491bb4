-- ===== src/Memory/Delivery.antt =====
-- The generation of deliveries: `Routes` has who is sent a note, `Rows` the inserts into the tables
-- of ops.sqlite, `Generate` `_generate_deliveries_for_note` and its callers, `Backfill` the rows for
-- older databases. `Runs` takes any of these calls as a list, and `Frozen` follows the routes of a note
-- through them.
pub mod Routes
pub mod Rows
pub mod Generate
pub mod Order
pub mod Kept
pub mod Backfill
pub mod Runs
pub mod Recipients
pub mod Targets
pub mod Frozen
mod Tests
