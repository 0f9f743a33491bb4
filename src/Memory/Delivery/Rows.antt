-- ===== src/Memory/Delivery/Rows.antt =====
-- The statements with which deliveries are written.
use Prim.Native.String
use a2a_superhub.Memory.Ops.{Delivery, Logical, Alias, Reason, Route, Ops}
use a2a_superhub.Prelude.{
  String, ℕ, Bool, List, Option, ◌==◌, if◌then◌else◌, none, eqb, not, some, ◌∷◌, ◌||◌, any, ◌&&◌,
  ltb, max, [], false, ◌++◌, true,
}
use Prim.Native.Nat.{ℕ, max}
use Prim.Native.String.{String, ◌∷◌}

-- what the generation takes from its surroundings
pub record DeliveryEnv : Type 0 where
  pub now : String
  -- the hexadecimal SHA-256 of a text
  pub digest : String → String
  -- `trace_id LIKE 'trace_delivery_%'`
  pub is_generated_trace : String → Bool
  -- how many numbers AUTOINCREMENT leaves out before the row of a delivery id
  pub skipped : String → ℕ

nul : String
nul = "\0"

-- `_delivery_id`
unfoldable pub delivery_id_of : DeliveryEnv → String → Route → String
unfolding nul
delivery_id_of env note_id r = String.◌++◌ "del_" (
    env.digest
      (String.◌++◌ note_id (String.◌++◌ nul (String.◌++◌ r.recipient (String.◌++◌ nul r.reason)))))

-- `_logical_delivery_id`
unfoldable pub logical_delivery_id : DeliveryEnv → String → String → String
unfolding nul
logical_delivery_id env note_id recipient = String.◌++◌ "del_" (
    env.digest (
      String.◌++◌ "a2a-superhub.logical-delivery.v2"
        (String.◌++◌ nul (String.◌++◌ note_id (String.◌++◌ nul recipient)))))

-- one of the unique keys of `deliveries`
pub clashes : Delivery → Delivery → Bool
clashes d old =
    old.delivery_id == d.delivery_id
    || (old.note_id == d.note_id && old.recipient == d.recipient && old.reason == d.reason)

-- `INSERT OR IGNORE INTO deliveries`, and whether there was no row
unfoldable pub insert_delivery : Delivery → Ops → Ops × Bool
unfolding clashes
insert_delivery d s =
    if any (clashes d) s.deliveries
    then (s, false)
    else (record s { deliveries = s.deliveries ++ d ∷ []; last_delivery = d.sequence }, true)

-- `UPDATE deliveries SET trace_id=? WHERE delivery_id=? AND trace_id LIKE 'trace_delivery_%'`
unfoldable pub retrace : DeliveryEnv → String → String → List Delivery → List Delivery
retrace env trace id [] = []
retrace env trace id (d ∷ ds) =
    let rest = retrace env trace id ds in
    if d.delivery_id == id && env.is_generated_trace d.trace_id
    then record d { trace_id = trace } ∷ rest
    else d ∷ rest

-- `SELECT … FROM deliveries WHERE delivery_id=?`
unfoldable pub find_delivery : String → List Delivery → Option Delivery
find_delivery id [] = none
find_delivery id (d ∷ ds) = if d.delivery_id == id then some d else find_delivery id ds

-- one of the unique keys of `logical_deliveries`
unfoldable pub clashes_logical : Logical → Logical → Bool
clashes_logical d old =
    eqb old.sequence d.sequence
    || old.delivery_id == d.delivery_id
    || (old.note_id == d.note_id && old.recipient == d.recipient)

-- The table is in the order of its key, `sequence`.
unfoldable pub place : Logical → List Logical → List Logical
place d [] = d ∷ []
place d (old ∷ rest) =
    let rest' = place d rest in if ltb d.sequence old.sequence then d ∷ old ∷ rest else old ∷ rest'

-- whether `INSERT OR IGNORE INTO logical_deliveries` inserts
unfoldable pub is_new_logical : Logical → List Logical → Bool
unfolding clashes_logical
is_new_logical d rows = not (any (clashes_logical d) rows)

unfoldable pub insert_logical : Logical → List Logical → List Logical
unfolding is_new_logical place
insert_logical d rows = if is_new_logical d rows then place d rows else rows

unfoldable pub retrace_logical : DeliveryEnv → String → String → List Logical → List Logical
retrace_logical env trace id [] = []
retrace_logical env trace id (d ∷ ds) =
    let rest = retrace_logical env trace id ds in
    if d.delivery_id == id && env.is_generated_trace d.trace_id
    then record d { trace_id = trace } ∷ rest
    else d ∷ rest

unfoldable pub insert_alias : Alias → List Alias → List Alias
insert_alias a rows =
    if any (λ old. old.legacy_delivery_id == a.legacy_delivery_id) rows
    then rows
    else rows ++ a ∷ []

unfoldable pub insert_reason : Reason → List Reason → List Reason
insert_reason r rows =
    if any (λ old. old.delivery_id == r.delivery_id && old.reason == r.reason) rows
    then rows
    else rows ++ r ∷ []

-- `ON CONFLICT(singleton) DO UPDATE SET high_water=MAX(…)`
unfoldable pub raise_high_water : ℕ → Option ℕ → Option ℕ
raise_high_water n none = some n
raise_high_water n (some old) = some (max old n)
