-- ===== src/Memory/Delivery/Runs.antt =====
-- Any generations of deliveries and backfills, one after the other, on tables that were empty.
use a2a_superhub.Memory.Ops.{Snapshot, Route, Ops, Logical}
use a2a_superhub.Memory.Delivery.Routes.{find_snapshot, mark_conflict}
use a2a_superhub.Memory.Delivery.Backfill.{
  backfill_logical_deliveries, backfill_logical_deliveries-Kept,
}
use a2a_superhub.Memory.Notes.{Note, MemoryError}
use a2a_superhub.Memory.Delivery.Rows.{DeliveryEnv}
use a2a_superhub.Memory.Delivery.Kept.{AllAllowed, generate_for_note-Kept}
use a2a_superhub.Memory.Delivery.Order.{Ascends}
use a2a_superhub.Prelude.{
  List, String, Preserves, ◌∷◌, Bool-cases, [], ◌≡◌, Result, not, Bool, Option, inl, Preserves-bind,
  inr, none, Preserves-after, Preserves-transaction, ◌++◌,
}
use a2a_superhub.Memory.Delivery.Generate.{
  generate_deliveries, generate_each, generate_all, generate_for_note, recipients_of,
}
use Prim.Native.String.{String, ◌∷◌}

pub data Generation : Type 0 where
  for_note :
      DeliveryEnv → Bool → (String → Result MemoryError Note) → String → Option String → Generation
  for_all : DeliveryEnv → List Note → Generation
  backfills : DeliveryEnv → Generation

-- the state after a generation, whether it returns or raises
unfoldable pub deliver : Generation → Ops → Ops
unfolding generate_deliveries generate_all backfill_logical_deliveries
deliver (for_note env enabled read id trace) s = (generate_deliveries env enabled read id trace s).1
deliver (for_all env notes) s = (generate_all env notes s).1
deliver (backfills env) s = backfill_logical_deliveries env s

unfoldable pub deliver_run : List Generation → Ops → Ops
unfolding deliver
deliver_run [] s = s
deliver_run (g ∷ gs) s = deliver_run gs (deliver g s)

-- any rows, and any recipient
abbrev pub AnyRows : List Logical → Type 0
AnyRows ls = Unit {0}

abbrev pub Anyone : String → String → Type 0
Anyone note recipient = Unit {0}

pub all_allowed :
    (note : String) (groups : List (String × List String)) → AllAllowed (Anyone note) groups
all_allowed note [] = tt
all_allowed note (g ∷ gs) = (tt, all_allowed note gs)

module _ (F : List Snapshot → Type 0)
    (recorded : (rows : List Snapshot) (x : Snapshot)
      → find_snapshot x.note_id rows ≡ none
      → F rows
      → F (rows ++ x ∷ []))
    (marked : (id : String) (new : String × List Route) (rows : List Snapshot)
      → F rows
      → F (mark_conflict id new rows)) where
  -- the snapshots and the order of `deliveries`
  abbrev pub IsDelivered : Ops → Type 0
  IsDelivered s = F s.snapshots × Ascends 0 s.deliveries s.last_delivery × AnyRows s.logical

  pub generate_for_note-IsDelivered :
      (env : DeliveryEnv) (trace : Option String) (note : Note)
      → Preserves IsDelivered (generate_for_note env trace note)
  generate_for_note-IsDelivered env trace note s h =
      generate_for_note-Kept env F AnyRows Anyone (λ d ls above any new q. tt) recorded marked
        (λ trace id ls q. tt) trace note s (λ routes _. all_allowed note.id (recipients_of routes))
        h

  generate_each-IsDelivered :
      (env : DeliveryEnv) (notes : List Note) → Preserves IsDelivered (generate_each env notes)
  unfolding generate_each
  generate_each-IsDelivered env [] s h = h
  generate_each-IsDelivered env (note ∷ notes) s h =
      Preserves-bind IsDelivered (generate_for_note env none note) _
        (generate_for_note-IsDelivered env none note)
        (λ inserted.
          Preserves-bind IsDelivered (generate_each env notes) _
            (generate_each-IsDelivered env notes) (λ more s h. h))
        s h

  deliver-IsDelivered : (g : Generation) (s : Ops) → IsDelivered s → IsDelivered (deliver g s)
  unfolding deliver generate_deliveries generate_all
  deliver-IsDelivered (for_note env enabled read id trace) s h = elim (Bool-cases (not enabled)) [
    | inl e ↦ rw (deliver, generate_deliveries, e) h
    | inr e ↦
        rw (deliver, generate_deliveries, e)
          (Preserves-after IsDelivered _ (read id, s) h
            (λ note _.
              Preserves-transaction IsDelivered (generate_for_note env trace note)
                (generate_for_note-IsDelivered env trace note) s h))
  ]
  deliver-IsDelivered (for_all env notes) s h =
      Preserves-transaction IsDelivered (generate_each env notes)
        (generate_each-IsDelivered env notes) s h
  deliver-IsDelivered (backfills env) s h =
      backfill_logical_deliveries-Kept env F AnyRows (λ d ls above new q. tt) s h

  pub deliver_run-IsDelivered :
      (gs : List Generation) (s : Ops) → IsDelivered s → IsDelivered (deliver_run gs s)
  unfolding deliver_run
  deliver_run-IsDelivered [] s h = h
  deliver_run-IsDelivered (g ∷ gs) s h =
      deliver_run-IsDelivered gs (deliver g s) (deliver-IsDelivered g s h)
