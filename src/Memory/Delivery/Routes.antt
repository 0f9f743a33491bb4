-- ===== src/Memory/Delivery/Routes.antt =====
-- Who is sent a note: `_delivery_targets` and `_snapshotted_delivery_targets`. A set of routes is a
-- list in the order in which they were added, without doubles.
use a2a_superhub.Prelude.{
  ◌>>◌, modify, pure, List, sort_by, String, Bool, if◌then◌else◌, select, Option, Exec, ◌∷◌, ◌==◌,
  any, not, none, some, [], ◌&&◌, text_leb, true, ◌||◌, ◌++◌, false,
}
use a2a_superhub.Memory.Notes.{Note, MemoryError}
use a2a_superhub.Auth.Bearer.{after_prefix}
use a2a_superhub.Memory.Ops.{Route, Snapshot, Ops}
use Prim.Native.String.{String, ◌∷◌}

unfoldable pub same_route : Route → Route → Bool
same_route a b = a.recipient == b.recipient && a.reason == b.reason

-- `set.add`
unfoldable pub add_route : Route → List Route → List Route
unfolding same_route
add_route r routes = if any (same_route r) routes then routes else routes ++ r ∷ []

unfoldable pub to_set : List Route → List Route → List Route
unfolding add_route
to_set done [] = done
to_set done (r ∷ rs) = to_set (add_route r done) rs

-- the order of pairs of texts
route_leb : Route → Route → Bool
route_leb a b =
    if a.recipient == b.recipient
    then text_leb a.reason b.reason
    else text_leb a.recipient b.recipient

-- `sorted` of a set of routes
unfoldable pub sort_routes : List Route → List Route
unfolding sort_by route_leb
sort_routes = sort_by route_leb

unfoldable pub about_routes : List String → List Route
about_routes [] = []
about_routes (subject ∷ rest) = record { recipient = subject; reason = "about" } ∷ about_routes rest

-- what the visibility adds
unfoldable pub direct_routes : Note → List Route
unfolding after_prefix
direct_routes note = elim (after_prefix "direct:" note.visibility) [
  | none ↦ []
  | some recipient ↦
      record { recipient = recipient; reason = "direct" }
      ∷ (if note.kind == "handoff"
          then record { recipient = recipient; reason = "handoff" } ∷ []
          else [])
]

unfoldable pub delivery_targets : Note → List Route
unfolding to_set about_routes direct_routes
delivery_targets note =
    select (λ r. not (r.recipient == note.author))
      (to_set [] (about_routes note.about ++ direct_routes note))

pub same_routes : List Route → List Route → Bool
unfolding same_route
same_routes [] [] = true
same_routes (x ∷ xs) (y ∷ ys) = same_route x y && same_routes xs ys
same_routes _ _ = false

-- the row of a note
unfoldable pub find_snapshot : String → List Snapshot → Option Snapshot
find_snapshot id [] = none
find_snapshot id (x ∷ xs) = if x.note_id == id then some x else find_snapshot id xs

-- `conflict_json=COALESCE(conflict_json, ?)`
pub first_conflict :
    String × List Route → Option (String × List Route) → Option (String × List Route)
first_conflict new none = some new
first_conflict new (some old) = some old

unfoldable pub mark_conflict : String → String × List Route → List Snapshot → List Snapshot
unfolding first_conflict
mark_conflict id new [] = []
mark_conflict id new (x ∷ xs) =
    let rest = mark_conflict id new xs in
    if x.note_id == id
    then record x { conflict = first_conflict new x.conflict } ∷ rest
    else x ∷ rest

-- `DELIVERY_REASONS`
unfoldable pub is_reason : String → Bool
is_reason text = text == "about" || text == "direct" || text == "handoff"

-- what follows on the row of the note, and the proposed routes
unfoldable pub take_snapshot :
    String → String → List Route → Option Snapshot → Exec MemoryError Ops (List Route)
unfolding same_routes mark_conflict is_reason
take_snapshot now id proposed none = do
  modify (λ s. record s {
    snapshots =
        s.snapshots
        ++ record { note_id = id; routes = proposed; recorded_at = now; conflict = none } ∷ [];
  })
  pure proposed
take_snapshot now id proposed (some row) = do
  modify (λ s.
      if not (same_routes row.routes proposed)
      then record s { snapshots = mark_conflict id (now, proposed) s.snapshots }
      else s)
  pure (select (λ r. is_reason r.reason) row.routes)

-- `_snapshotted_delivery_targets`; the JSON of routes is written here alone
unfoldable pub snapshotted_targets : String → Note → Exec MemoryError Ops (List Route)
unfolding sort_routes delivery_targets find_snapshot take_snapshot
snapshotted_targets now note s =
    take_snapshot now note.id (sort_routes (delivery_targets note))
      (find_snapshot note.id s.snapshots) s
