-- ===== src/Memory/Delivery/Frozen.antt =====
-- The routes of a note stay those of its first generation.
use a2a_superhub.Memory.Delivery.Targets.{delivery_targets-IsTarget}
use a2a_superhub.Memory.Delivery.Recipients.{Unwatched, deliveries_follow_snapshot, names}
use a2a_superhub.Auth.Bearer.{after_prefix}
use a2a_superhub.Memory.Delivery.Kept.{deliver_all-Kept}
use a2a_superhub.Memory.Delivery.Order.{Ascends, is_for}
use a2a_superhub.Memory.Notes.{Note}
use a2a_superhub.Memory.Delivery.Rows.{DeliveryEnv}
use a2a_superhub.Memory.Delivery.Generate.{generate_for_note, trace_for, recipients_of}
use mathlib.Core.Option.{some-injective}
use a2a_superhub.Memory.Delivery.Runs.{
  IsDelivered, Generation, deliver_run, AnyRows, Anyone, deliver_run-IsDelivered, all_allowed,
}
use a2a_superhub.Memory.Delivery.Routes.{
  find_snapshot, mark_conflict, sort_routes, snapshotted_targets, take_snapshot, delivery_targets,
  first_conflict,
}
use a2a_superhub.Memory.Ops.{Route, Snapshot, Ops, empty}
use a2a_superhub.Prelude.{
  String, List, ◌≡◌, some, none, ◌∷◌, Bool-cases, ◌++◌, ◌==◌, [], inl, inr, ap, arith, ◌∙◌, eq_refl,
  refl, Option, any, true, ◌⊎◌, false, sym, any-sort_by,
}

-- a snapshot of the note with these routes
abbrev pub HasRoutes : String → List Route → List Snapshot → Type 0
HasRoutes id routes rows =
    (row : Snapshot) × (find_snapshot id rows ≡ some row) × (row.routes ≡ routes)

module _ (id : String) (routes : List Route) where
  append-HasRoutes :
      (rows : List Snapshot) (x : Snapshot)
      → find_snapshot x.note_id rows ≡ none
      → HasRoutes id routes rows
      → HasRoutes id routes (rows ++ x ∷ [])
  unfolding find_snapshot
  append-HasRoutes [] x new (row, found, same) = cc
  append-HasRoutes (y ∷ ys) x new (row, found, same) = elim (Bool-cases (y.note_id == id)) [
    | inl e ↦ (row, rw e (rw e at found), same)
    | inr e ↦
        let found' : find_snapshot id ys ≡ some row = rw (find_snapshot, e) at found in
        let new' : find_snapshot x.note_id ys ≡ none = ground (arith, new) in
        let (row', later, same') = append-HasRoutes ys x new' (row, found', same) in
        (row', rw e later, same')
  ]

  mark_conflict-HasRoutes :
      (other : String) (new : String × List Route) (rows : List Snapshot)
      → HasRoutes id routes rows
      → HasRoutes id routes (mark_conflict other new rows)
  unfolding find_snapshot mark_conflict
  mark_conflict-HasRoutes other new [] (row, found, same) = cc
  mark_conflict-HasRoutes other new (y ∷ ys) (row, found, same) =
      elim (Bool-cases (y.note_id == id)) [
        | inl e ↦
            let found' : some y ≡ some row = rw (find_snapshot, e) at found in
            let same' : y.routes ≡ routes =
              ap (λ (z : Snapshot). z.routes) (some-injective y row found') ∙ same in
            elim (Bool-cases (y.note_id == other)) [
              | inl k ↦ (
                record y { conflict = first_conflict new y.conflict },
                rw (find_snapshot, mark_conflict, k, e) refl,
                same',
              )
              | inr k ↦ (y, rw (find_snapshot, mark_conflict, k, e) refl, same')
            ]
        | inr e ↦
            let found' : find_snapshot id ys ≡ some row = rw (find_snapshot, e) at found in
            let (row', later, same') = mark_conflict-HasRoutes other new ys (row, found', same) in
            elim (Bool-cases (y.note_id == other)) [
              | inl k ↦ (row', rw (k, e) later, same')
              | inr k ↦ (row', rw (k, e) later, same')
            ]
      ]

find_snapshot-append_new :
    (x : Snapshot) (rows : List Snapshot)
    → find_snapshot x.note_id rows ≡ none
    → find_snapshot x.note_id (rows ++ x ∷ []) ≡ some x
unfolding find_snapshot
find_snapshot-append_new x [] new = rw (eq_refl x.note_id) refl
find_snapshot-append_new x (y ∷ ys) new = ground (arith, find_snapshot-append_new x ys)

-- what the first generation for a note leaves, and any later one keeps
abbrev Frozen : String → List Route → Ops → Type 0
Frozen id routes =
    IsDelivered (HasRoutes id routes) (append-HasRoutes id routes)
      (mark_conflict-HasRoutes id routes)

first_generation-Frozen :
    (env : DeliveryEnv) (trace : Option String) (note : Note) (s : Ops)
    → find_snapshot note.id s.snapshots ≡ none
    → Ascends 0 s.deliveries s.last_delivery
    → Frozen note.id (sort_routes (delivery_targets note)) (generate_for_note env trace note s).1
unfolding generate_for_note snapshotted_targets take_snapshot
first_generation-Frozen env trace note s new h =
    let routes = sort_routes (delivery_targets note) in
    let x : Snapshot = record {
      note_id = note.id;
      routes = routes;
      recorded_at = env.now;
      conflict = none;
    } in
    let s1 : Ops = record s { snapshots = s.snapshots ++ x ∷ [] } in
    let start : Frozen note.id routes s1 =
      ((x, find_snapshot-append_new x s.snapshots new, refl), h, tt) in
    rw (generate_for_note, snapshotted_targets, new)
      (deliver_all-Kept env (HasRoutes note.id routes) AnyRows Anyone (λ d ls above any new q. tt)
        (append-HasRoutes note.id routes) (mark_conflict-HasRoutes note.id routes)
        (λ trace id ls q. tt) note (trace_for env note.id trace) (recipients_of routes)
        (all_allowed note.id (recipients_of routes)) s1 start)

-- The routes of a note are those of its first generation. After any generations and backfills from
-- empty tables there is a generation for a note that has no snapshot, then any others, for any
-- notes, and then one for any version of the note, with the same identifier: the last one adds no
-- logical delivery but of that note, and to a recipient who is a target of the version that was
-- first: not its author, and one whom it is about or directed to.
pub later_deliveries_reach_first_targets :
    (before between : List Generation) (env env' : DeliveryEnv) (trace trace' : Option String)
    (first note : Note) (n p : String)
    → find_snapshot first.id (deliver_run before empty).snapshots ≡ none
    → note.id ≡ first.id
    → let s =
        deliver_run between (generate_for_note env trace first (deliver_run before empty)).1 in
      any (is_for n p) (generate_for_note env' trace' note s).1.logical ≡ true
      → (any (is_for n p) s.logical ≡ true)
        ⊎ ((n ≡ first.id)
            × ((p == first.author) ≡ false)
            × ((any (λ subject. subject == p) first.about ≡ true)
                ⊎ (after_prefix "direct:" first.visibility ≡ some p)))
unfolding sort_routes
later_deliveries_reach_first_targets before between env env' trace trace' first note n p new same
      e =
    let s0 = deliver_run before empty in
    let (_, h0, _) =
      deliver_run-IsDelivered Unwatched (λ rows x new f. tt) (λ id new rows f. tt) before empty
        (tt, omega arith, tt) in
    let routes = sort_routes (delivery_targets first) in
    let s1 : Ops = (generate_for_note env trace first s0).1 in
    let s2 : Ops = deliver_run between s1 in
    let ((row, found, is_routes), h, _) =
      deliver_run-IsDelivered (HasRoutes first.id routes) (append-HasRoutes first.id routes)
        (mark_conflict-HasRoutes first.id routes) between s1
        (first_generation-Frozen env trace first s0 new h0) in
    let found' : find_snapshot note.id s2.snapshots ≡ some row =
      ap (λ (id : String). find_snapshot id s2.snapshots) same ∙ found in
    elim (deliveries_follow_snapshot env' trace' note s2 row n p h found' e) [
      | inl old ↦ inl old
      | inr (is_note, named) ↦
          let named' : any (names p) routes ≡ true = ap (any (names p)) (sym is_routes) ∙ named in
          let (other, target) =
            delivery_targets-IsTarget first p
              (sym (any-sort_by (names p) _ (delivery_targets first)) ∙ named') in
          inr (is_note ∙ same, other, target)
    ]
