-- ===== src/Memory/Delivery/Kept.antt =====
-- What a generation keeps: the order of `deliveries`, and a predicate on the logical rows that holds
-- when a row with a new key is placed and when traces are set.
use a2a_superhub.Memory.Ops.{Snapshot, Delivery, Logical, Ops, Route}
use a2a_superhub.Memory.Delivery.Routes.{
  find_snapshot, mark_conflict, take_snapshot, snapshotted_targets, same_routes, sort_routes,
  delivery_targets,
}
use a2a_superhub.Memory.Delivery.Generate.{
  deliver_found, generate_for_note, recipients_of, trace_for, all_found, latest, store_aliases,
  deliver_to, set_trace, store_route, store_reasons, store_logical, finish_recipient, logical_row,
  deliver_all, Trace, delivery_row,
}
use a2a_superhub.Memory.Notes.{MemoryError, Note}
use a2a_superhub.Memory.Delivery.Order.{
  Ascends, Ascends-append, retrace-Ascends, find_delivery-Ascends,
}
use a2a_superhub.Memory.Delivery.Rows.{
  DeliveryEnv, is_new_logical, place, retrace_logical, insert_delivery, insert_logical, clashes,
  delivery_id_of, find_delivery,
}
use a2a_superhub.Prelude.{
  String, List, Option, ◌∷◌, some, ◌<◌, ◌≡◌, ℕ, [], ok, none, refl, Result-cases, arith, true, inl,
  err, inr, Result, max, Bool-cases, any, Bool, continue, Preserves, not, pure, Preserves-after,
  ◌&&◌, length, sort_by, text_leb, ◌++◌,
}
use Prim.Native.String.{String, ◌∷◌}

-- every recipient of the groups is allowed
abbrev pub AllAllowed : (String → Type 0) → List (String × List String) → Type 0
AllAllowed allowed [] = Unit {0}
AllAllowed allowed (g ∷ gs) = allowed g.0 × AllAllowed allowed gs

-- every row that was found has a sequence above zero
abbrev Found : List (Option Delivery) → Type 0
Found [] = Unit {0}
Found (none ∷ rest) = Found rest
Found (some d ∷ rest) = (0 < d.sequence) × Found rest

abbrev All : List Delivery → Type 0
All [] = Unit {0}
All (d ∷ ds) = (0 < d.sequence) × All ds

Found-∷ :
    (found : Option Delivery) (rest : List (Option Delivery))
    → ((d : Delivery) → found ≡ some d → 0 < d.sequence)
    → Found rest
    → Found (found ∷ rest)
Found-∷ none rest h hs = hs
Found-∷ (some d) rest h hs = (h d refl, hs)

all_found-All :
    (found : List (Option Delivery)) (ds : List Delivery)
    → Found found
    → all_found found ≡ ok ds
    → All ds
unfolding all_found
all_found-All [] ds h e = let same : [] ≡ ds = cc in rw (← same) tt
all_found-All (none ∷ rest) ds h e = cc
all_found-All (some d ∷ rest) ds (h, hs) e = elim (Result-cases (all_found rest)) [
  | inl (x, bad) ↦ let e' : err x ≡ ok ds = rw bad at e in cc
  | inr (xs, good) ↦
      let e' : ok (d ∷ xs) ≡ ok ds = rw good at e in
      let same : d ∷ xs ≡ ds = cc in rw (← same) (h, all_found-All rest xs hs good)
]

latest_above : (ds : List Delivery) (n : ℕ) → All ds → latest ds ≡ ok n → 0 < n
unfolding latest
latest_above [] n h e = cc
latest_above (d ∷ []) n (h, _) e = let same : d.sequence ≡ n = cc in omega (arith, h, same)
latest_above (d ∷ x ∷ xs) n (h, hs) e = elim (Result-cases (latest (x ∷ xs))) [
  | inl (x', bad) ↦ let e' : err x' ≡ ok n = rw bad at e in cc
  | inr (m, good) ↦
      let e' : ok (max d.sequence m) ≡ ok n = rw good at e in
      let same : max d.sequence m ≡ n = cc in omega (arith, h, same)
]

pub store_aliases-tables :
    (id : String) (ds : List Delivery) (s : Ops)
    → ((store_aliases id ds s).deliveries ≡ s.deliveries)
      × ((store_aliases id ds s).last_delivery ≡ s.last_delivery)
      × ((store_aliases id ds s).logical ≡ s.logical)
      × ((store_aliases id ds s).snapshots ≡ s.snapshots)
unfolding store_aliases
store_aliases-tables id [] s = (refl, refl, refl, refl)
store_aliases-tables id (d ∷ ds) s = store_aliases-tables id ds _

module _ (env : DeliveryEnv) (F : List Snapshot → Type 0) (Q : List Logical → Type 0)
    (Allowed : String → String → Type 0)
    (placed : (d : Logical) (ls : List Logical)
      → 0 < d.sequence
      → Allowed d.note_id d.recipient
      → is_new_logical d ls ≡ true
      → Q ls
      → Q (place d ls))
    (recorded : (rows : List Snapshot) (x : Snapshot)
      → find_snapshot x.note_id rows ≡ none
      → F rows
      → F (rows ++ x ∷ []))
    (marked : (id : String) (new : String × List Route) (rows : List Snapshot)
      → F rows
      → F (mark_conflict id new rows))
    (retraced : (trace id : String) (ls : List Logical)
      → Q ls
      → Q (retrace_logical env trace id ls)) where
  abbrev Kept : Ops → Type 0
  Kept s = F s.snapshots × Ascends 0 s.deliveries s.last_delivery × Q s.logical

  insert_delivery-Kept :
      (d : Delivery) (s : Ops)
      → s.last_delivery < d.sequence
      → Kept s
      → Kept (insert_delivery d s).0
  unfolding insert_delivery
  insert_delivery-Kept d s above (f, h, q) = elim (Bool-cases (any (clashes d) s.deliveries)) [
    | inl e ↦ rw (insert_delivery, e) (f, h, q)
    | inr e ↦
        rw (insert_delivery, e) (f, Ascends-append 0 s.last_delivery s.deliveries d h above, q)
  ]

  set_trace-Kept :
      (trace : Trace) (id : String) (result : Ops × Bool)
      → Kept result.0
      → Kept (set_trace env trace id result)
  unfolding set_trace
  set_trace-Kept trace id (s, is_new) (f, h, q) =
      elim (Bool-cases (not is_new && trace.is_supplied)) [
        | inl e ↦
            rw (set_trace, e)
              (f, retrace-Ascends env trace.text id 0 s.last_delivery s.deliveries h, q)
        | inr e ↦ rw (set_trace, e) (f, h, q)
      ]

  store_route-Kept :
      (note_id : String) (trace : Trace) (r : Route) (s : Ops)
      → Kept s
      → Kept (store_route env note_id trace r s)
  unfolding store_route delivery_row
  store_route-Kept note_id trace r s h =
      set_trace-Kept trace (delivery_id_of env note_id r) _
        (insert_delivery-Kept (delivery_row env note_id trace r s) s (omega arith) h)

  abbrev FindsAbove : Result MemoryError (List (Option Delivery)) × Ops → Type 0
  FindsAbove (ok found, s) = Kept s × Found found
  FindsAbove (err e, s) = Kept s

  store_reasons-Kept :
      (note_id : String) (trace : Trace) (recipient : String) (reasons : List String) (s : Ops)
      → Kept s
      → FindsAbove (store_reasons env note_id trace recipient reasons s)
  unfolding store_reasons
  store_reasons-Kept note_id trace recipient [] s h = (h, tt)
  store_reasons-Kept note_id trace recipient (reason ∷ rest) s h =
      let r : Route = record { recipient = recipient; reason = reason } in
      let s1 = store_route env note_id trace r s in
      let h1 = store_route-Kept note_id trace r s h in
      add_alias (find_delivery (delivery_id_of env note_id r) s1.deliveries)
        (λ d e.
          find_delivery-Ascends (delivery_id_of env note_id r) 0 s1.last_delivery s1.deliveries d
            h1.1 e)
        (store_reasons env note_id trace recipient rest s1)
        (store_reasons-Kept note_id trace recipient rest s1 h1)
    where
      add_alias :
          (alias : Option Delivery)
          → ((d : Delivery) → alias ≡ some d → 0 < d.sequence)
          → (result : Result MemoryError (List (Option Delivery)) × Ops) → FindsAbove result
          → FindsAbove (continue (λ aliases. pure (alias ∷ aliases)) result)
      add_alias alias above (ok found, s') (k, all) = (k, Found-∷ alias found above all)
      add_alias alias above (err e, s') k = k

  store_logical-Kept :
      (trace : Trace) (d : Logical) (s : Ops)
      → 0 < d.sequence
      → Allowed d.note_id d.recipient
      → Kept s
      → Kept (store_logical env trace d s)
  unfolding store_logical insert_logical
  store_logical-Kept trace d s above allowed (f, h, q) =
      elim (Bool-cases (is_new_logical d s.logical)) [
        | inl e ↦ rw (store_logical, insert_logical, e) (f, h, placed d s.logical above allowed e q)
        | inr e ↦ elim (Bool-cases trace.is_supplied) [
          | inl t ↦ rw (store_logical, e, t) (f, h, retraced trace.text d.delivery_id s.logical q)
          | inr t ↦ rw (store_logical, e, t) (f, h, q)
        ]
      ]

  finish_recipient-Kept :
      (note : Note) (trace : Trace) (d : Logical) (aliases : List Delivery) (count : ℕ)
      (is_new : Bool) (s : Ops)
      → 0 < d.sequence
      → Allowed d.note_id d.recipient
      → Kept s
      → Kept (finish_recipient env note trace d aliases count is_new s)
  unfolding finish_recipient
  finish_recipient-Kept note trace d aliases count is_new s above allowed h =
      let s1 = store_logical env trace d s in
      let (deliveries, last, logical, snapshots) = store_aliases-tables d.delivery_id aliases s1 in
      let h1 = store_logical-Kept trace d s above allowed h in
      elim (Bool-cases is_new) [
        | inl e ↦ rw (finish_recipient, e, deliveries, last, logical, snapshots) h1
        | inr e ↦ rw (finish_recipient, e, deliveries, last, logical, snapshots) h1
      ]

  deliver_found-Kept :
      (note : Note) (trace : Trace) (recipient : String) (count : ℕ)
      (found : List (Option Delivery))
      → Allowed note.id recipient
      → Found found
      → Preserves Kept (deliver_found env note trace recipient count found)
  unfolding deliver_found logical_row
  deliver_found-Kept note trace recipient count found allowed all s h =
      Preserves-after Kept _ (all_found found, s) h
        (λ aliases e.
          Preserves-after Kept _ (latest aliases, s) h
            (λ n e'.
              finish_recipient-Kept note trace (logical_row env note.id trace recipient n) aliases
                count _ s (latest_above aliases n (all_found-All found aliases all e) e') allowed
                h))

  after_reasons-Kept :
      (note : Note) (trace : Trace) (recipient : String) (count : ℕ)
      (result : Result MemoryError (List (Option Delivery)) × Ops)
      → Allowed note.id recipient
      → FindsAbove result
      → Kept (continue (deliver_found env note trace recipient count) result).1
  after_reasons-Kept note trace recipient count (err e, s) allowed k = k
  after_reasons-Kept note trace recipient count (ok found, s) allowed (k, all) =
      deliver_found-Kept note trace recipient count found allowed all s k

  deliver_to-Kept :
      (note : Note) (trace : Trace) (recipient : String) (reasons : List String)
      → Allowed note.id recipient
      → Preserves Kept (deliver_to env note trace recipient reasons)
  unfolding deliver_to
  deliver_to-Kept note trace recipient reasons allowed s h =
      after_reasons-Kept note trace recipient (length reasons)
        (store_reasons env note.id trace recipient (sort_by text_leb reasons) s) allowed
        (store_reasons-Kept note.id trace recipient (sort_by text_leb reasons) s h)

  pub deliver_all-Kept :
      (note : Note) (trace : Trace) (groups : List (String × List String))
      → AllAllowed (Allowed note.id) groups
      → Preserves Kept (deliver_all env note trace groups)
  unfolding deliver_all
  deliver_all-Kept note trace [] all s h = h
  deliver_all-Kept note trace ((recipient, reasons) ∷ rest) (allowed, all) s h =
      Preserves-after Kept _ (deliver_to env note trace recipient reasons s)
        (deliver_to-Kept note trace recipient reasons allowed s h)
        (λ inserted e.
          Preserves-after Kept _
            (deliver_all env note trace rest (deliver_to env note trace recipient reasons s).1)
            (deliver_all-Kept note trace rest all _
              (deliver_to-Kept note trace recipient reasons allowed s h))
            (λ more _.
              deliver_all-Kept note trace rest all _
                (deliver_to-Kept note trace recipient reasons allowed s h)))

  take_snapshot-Kept :
      (id : String) (proposed : List Route) (row : Option Snapshot) (s : Ops)
      → find_snapshot id s.snapshots ≡ row
      → Kept s
      → Kept (take_snapshot env.now id proposed row s).1
  unfolding take_snapshot
  take_snapshot-Kept id proposed none s new (f, h, q) = (recorded s.snapshots _ new f, h, q)
  take_snapshot-Kept id proposed (some row) s there (f, h, q) =
      elim (Bool-cases (not (same_routes row.routes proposed))) [
        | inl e ↦ rw (take_snapshot, e) (marked id (env.now, proposed) s.snapshots f, h, q)
        | inr e ↦ rw (take_snapshot, e) (f, h, q)
      ]

  pub generate_for_note-Kept :
      (trace : Option String) (note : Note) (s : Ops)
      → ((routes : List Route)
          → (snapshotted_targets env.now note s).0 ≡ ok routes
          → AllAllowed (Allowed note.id) (recipients_of routes))
      → Kept s
      → Kept (generate_for_note env trace note s).1
  unfolding generate_for_note snapshotted_targets
  generate_for_note-Kept trace note s allowed h =
      let h1 =
        take_snapshot-Kept note.id (sort_routes (delivery_targets note))
          (find_snapshot note.id s.snapshots) s refl h in
      Preserves-after Kept _ (snapshotted_targets env.now note s) h1 (λ routes e.
        deliver_all-Kept note (trace_for env note.id trace) (recipients_of routes)
          (allowed routes e) (snapshotted_targets env.now note s).1 h1)
