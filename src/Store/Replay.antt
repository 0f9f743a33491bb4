-- ===== src/Store/Replay.antt =====
-- The answer to a `create_task` that is repeated, whatever was called in between.
use a2a_superhub.Store.Tables.{Store, Task, column_is}
use a2a_superhub.Prelude.{String, ◌≡◌, Option, some, List, find}

module _ (k : String) (t : Task) where
  -- the row of the task, but for its state and the time of its last change
  abbrev pub IsRowOf : Task → Type 0
  IsRowOf row = row ≡ record t { state = row.state; updated_at = row.updated_at }

  -- the first row with the key is that of the task
  abbrev Claimed : List Task → Type 0
  Claimed ts =
      (row : Task) × (find (λ x. column_is x.idempotency_key k) ts ≡ some row) × IsRowOf row
