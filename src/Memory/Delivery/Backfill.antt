-- ===== src/Memory/Delivery/Backfill.antt =====
-- `_backfill_logical_deliveries`, for databases with deliveries from before there were logical ones.
use a2a_superhub.Memory.Ops.{Snapshot, Delivery, Ops, Logical, Issued, ConsumerCursor}
use a2a_superhub.Memory.Delivery.Kept.{store_aliases-tables}
use a2a_superhub.Memory.Delivery.Order.{Ascends}
use a2a_superhub.Memory.Delivery.Generate.{store_aliases}
use a2a_superhub.Memory.Delivery.Rows.{
  logical_delivery_id, insert_logical, DeliveryEnv, raise_high_water, is_new_logical, place,
}
use a2a_superhub.Prelude.{
  List, ℕ, String, Bool, ◌∷◌, max, [], ◌≤◌, ◌==◌, if◌then◌else◌, select, arith, ◌<◌, ◌&&◌, any,
  text_leb, Bool-cases, inl, ◌≡◌, inr, true,
}
use Prim.Native.String.{String, ◌∷◌, []}
use Prim.Native.Nat.{ℕ, max}

unfoldable pub same_group : Delivery → Delivery → Bool
same_group a b = a.note_id == b.note_id && a.recipient == b.recipient

-- `GROUP BY note_id, recipient`: the first row of each group, after those before. The order of the
-- groups shows only in the order of aliases and reasons, in which they are not read.
unfoldable pub leaders : List Delivery → List Delivery → List Delivery
unfolding same_group
leaders before [] = []
leaders before (d ∷ ds) =
    let rest = leaders (d ∷ before) ds in if any (same_group d) before then rest else d ∷ rest

-- `MAX(sequence)`, `MIN(created_at)`, `MAX(trace_id)` of the rows of a group
unfoldable pub max_sequence_of : ℕ → List Delivery → ℕ
max_sequence_of n [] = n
max_sequence_of n (d ∷ ds) = max_sequence_of (max n d.sequence) ds

first_time : String → List Delivery → String
first_time t [] = t
first_time t (d ∷ ds) = first_time (if text_leb t d.created_at then t else d.created_at) ds

last_trace : String → List Delivery → String
last_trace t [] = t
last_trace t (d ∷ ds) = last_trace (if text_leb d.trace_id t then t else d.trace_id) ds

-- the logical row of a group
unfoldable pub group_row : DeliveryEnv → Delivery → List Delivery → Logical
unfolding logical_delivery_id max_sequence_of first_time last_trace
group_row env d rows = record {
  sequence = max_sequence_of d.sequence rows;
  delivery_id = logical_delivery_id env d.note_id d.recipient;
  note_id = d.note_id;
  recipient = d.recipient;
  trace_id = last_trace d.trace_id rows;
  created_at = first_time d.created_at rows;
}

unfoldable pub backfill_group : DeliveryEnv → Delivery → Ops → Ops
unfolding same_group group_row insert_logical store_aliases
backfill_group env d s =
    let rows = select (same_group d) s.deliveries in
    let row = group_row env d rows in
    store_aliases row.delivery_id rows (record s { logical = insert_logical row s.logical })

unfoldable pub backfill_groups : DeliveryEnv → List Delivery → Ops → Ops
unfolding backfill_group
backfill_groups env [] s = s
backfill_groups env (d ∷ ds) s = backfill_groups env ds (backfill_group env d s)

max_logical : List Logical → ℕ
max_logical [] = 0
max_logical (d ∷ ds) = max d.sequence (max_logical ds)

max_issued : List Issued → ℕ
max_issued [] = 0
max_issued (c ∷ cs) = max c.sequence (max_issued cs)

max_acked : List ConsumerCursor → ℕ
max_acked [] = 0
max_acked (c ∷ cs) = max c.acked_sequence (max_acked cs)

unfoldable pub maxima : Ops → ℕ
unfolding max_sequence_of max_logical max_issued max_acked
maxima s =
    max (max_sequence_of 0 s.deliveries)
      (max (max_logical s.logical) (max (max_issued s.issued) (max_acked s.cursors)))

unfoldable pub backfill_logical_deliveries : DeliveryEnv → Ops → Ops
unfolding leaders backfill_groups maxima raise_high_water
backfill_logical_deliveries env s =
    let s1 = backfill_groups env (leaders [] s.deliveries) s in
    record s1 { high_water = raise_high_water (maxima s1) s1.high_water }

abbrev Above : ℕ → List Delivery → Type 0
Above a [] = Unit {0}
Above a (d ∷ ds) = (a < d.sequence) × Above a ds

leaders-Above :
    (a b : ℕ) (ds before : List Delivery) → 0 ≤ a → Ascends a ds b → Above 0 (leaders before ds)
unfolding leaders
leaders-Above a b [] before low h = tt
leaders-Above a b (d ∷ ds) before low (h, hs) = elim (Bool-cases (any (same_group d) before)) [
  | inl e ↦ rw (leaders, e) (leaders-Above d.sequence b ds (d ∷ before) (omega arith) hs)
  | inr e ↦
      rw (leaders, e)
        (omega (arith, h), leaders-Above d.sequence b ds (d ∷ before) (omega arith) hs)
]

max_sequence_of-above : (n : ℕ) (ds : List Delivery) → n ≤ max_sequence_of n ds
unfolding max_sequence_of
max_sequence_of-above n [] = omega arith
max_sequence_of-above n (d ∷ ds) = omega (arith, max_sequence_of-above (max n d.sequence) ds)

module _ (env : DeliveryEnv) (F : List Snapshot → Type 0) (Q : List Logical → Type 0)
    (placed : (d : Logical) (ls : List Logical)
      → 0 < d.sequence
      → is_new_logical d ls ≡ true
      → Q ls
      → Q (place d ls)) where
  abbrev KeptRows : Ops → Type 0
  KeptRows s = F s.snapshots × Ascends 0 s.deliveries s.last_delivery × Q s.logical

  backfill_group-KeptRows :
      (d : Delivery) (s : Ops) → 0 < d.sequence → KeptRows s → KeptRows (backfill_group env d s)
  unfolding backfill_group insert_logical group_row
  backfill_group-KeptRows d s above (f, h, q) =
      let rows = select (same_group d) s.deliveries in
      let row = group_row env d rows in
      let s1 : Ops = record s { logical = insert_logical row s.logical } in
      let (deliveries, last, logical, snapshots) = store_aliases-tables row.delivery_id rows s1 in
      let high = max_sequence_of-above d.sequence rows in
      let inserted : Q (insert_logical row s.logical) =
        elim (Bool-cases (is_new_logical row s.logical)) [
          | inl e ↦ rw (insert_logical, e) (placed row s.logical (omega (arith, above, high)) e q)
          | inr e ↦ rw (insert_logical, e) q
        ] in
      (rw snapshots f, rw (deliveries, last) h, rw logical inserted)

  backfill_groups-KeptRows :
      (ds : List Delivery) (s : Ops) → Above 0 ds → KeptRows s → KeptRows (backfill_groups env ds s)
  unfolding backfill_groups
  backfill_groups-KeptRows [] s all h = h
  backfill_groups-KeptRows (d ∷ ds) s (above, all) h =
      backfill_groups-KeptRows ds (backfill_group env d s) all (backfill_group-KeptRows d s above h)

  pub backfill_logical_deliveries-Kept :
      (s : Ops) → KeptRows s → KeptRows (backfill_logical_deliveries env s)
  unfolding backfill_logical_deliveries
  backfill_logical_deliveries-Kept s (f, h, q) =
      backfill_groups-KeptRows (leaders [] s.deliveries) s
        (leaders-Above 0 s.last_delivery s.deliveries [] (omega arith) h) (f, h, q)
