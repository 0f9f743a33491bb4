-- ===== src/Memory/Delivery/Recipients.antt =====
-- Who gets a delivery: the routes that were first recorded for a note.
use a2a_superhub.Memory.Delivery.Rows.{is_new_logical, retrace_logical, place, DeliveryEnv}
use a2a_superhub.Memory.Delivery.Order.{is_for, any-retrace_logical, Ascends, any-place}
use a2a_superhub.Memory.Notes.{Note}
use a2a_superhub.Memory.Delivery.Kept.{AllAllowed, generate_for_note-Kept}
use a2a_superhub.Memory.Delivery.Routes.{
  sort_routes, snapshotted_targets, take_snapshot, find_snapshot, is_reason,
}
use a2a_superhub.Memory.Ops.{Route, Logical, Ops, Snapshot}
use a2a_superhub.Memory.Delivery.Generate.{group_by_recipient, recipients_of, generate_for_note}
use a2a_superhub.Dict.{put}
use a2a_superhub.Prelude.{
  String, Bool, List, ◌==◌, any, ◌≡◌, select, true, ◌⊎◌, ◌∷◌, inr, inl, arith, eq_refl, Bool-cases,
  [], eq_iff, refl, sym, any-sort_by, ◌∙◌, ◌<◌, Option, ◌||◌, ok, some,
}
use Prim.Native.String.{String, ◌∷◌}

abbrev pub names : String → Route → Bool
names recipient r = r.recipient == recipient

abbrev is_group : String → String × List String → Bool
is_group recipient g = g.0 == recipient

any-put :
    (recipient key : String) (v : List String) (groups : List (String × List String))
    → any (is_group recipient) (put key v groups) ≡ true
    → (any (is_group recipient) groups ≡ true) ⊎ ((key == recipient) ≡ true)
unfolding put
any-put recipient key v [] h = inr (ground arith)
any-put recipient key v ((k, old) ∷ rest) h = elim (Bool-cases (k == recipient)) [
  | inl e ↦ inl (ground arith)
  | inr other ↦ elim (Bool-cases (k == key)) [
    | inl same ↦ inl (rw (put, same) at h)
    | inr e ↦ elim (any-put recipient key v rest (rw (put, e, other) at h)) [
      | inl old ↦ inl (ground arith)
      | inr new ↦ inr new
    ]
  ]
]

-- a recipient of a group is one of the routes
any-group_by_recipient :
    (recipient : String) (routes : List Route) (done : List (String × List String))
    → any (is_group recipient) (group_by_recipient done routes) ≡ true
    → (any (is_group recipient) done ≡ true) ⊎ (any (names recipient) routes ≡ true)
unfolding group_by_recipient
any-group_by_recipient recipient [] done h = inl h
any-group_by_recipient recipient (r ∷ rs) done h = elim (any-group_by_recipient recipient rs _ h) [
  | inr later ↦ inr (ground arith)
  | inl grouped ↦ elim (any-put recipient r.recipient _ done grouped) [
    | inl old ↦ inl old
    | inr here ↦ inr (ground arith)
  ]
]

any-recipients_of :
    (recipient : String) (routes : List Route)
    → any (is_group recipient) (recipients_of routes) ≡ true
    → any (names recipient) routes ≡ true
unfolding recipients_of sort_routes
any-recipients_of recipient routes h =
    let grouped : any (is_group recipient) (group_by_recipient [] (sort_routes routes)) ≡ true =
      sym (any-sort_by (is_group recipient) _ (group_by_recipient [] (sort_routes routes))) ∙ h in
    elim (any-group_by_recipient recipient (sort_routes routes) [] grouped) [
      | inl nobody ↦ cc
      | inr named ↦ sym (any-sort_by (names recipient) _ routes) ∙ named
    ]

pub any-select :
    {A : Type 0} (p q : A → Bool) (xs : List A) → any p (select q xs) ≡ true → any p xs ≡ true
any-select p q [] h = h
any-select p q (x ∷ xs) h = ground (arith, any-select p q xs)

-- every group is allowed if every recipient is
allowed_groups :
    (allowed : String → Type 0) (groups : List (String × List String))
    → ((recipient : String) → any (is_group recipient) groups ≡ true → allowed recipient)
    → AllAllowed allowed groups
allowed_groups allowed [] h = tt
allowed_groups allowed ((k, reasons) ∷ gs) h = (
  h k (rw (eq_refl k) refl),
  allowed_groups allowed gs (λ recipient e. h recipient (ground arith)),
)

-- nothing is asked of the snapshots
abbrev pub Unwatched : List Snapshot → Type 0
Unwatched rows = Unit {0}

module _ (note : Note) (routes : List Route) (old : List Logical) where
  abbrev pub Sent : String → String → Type 0
  Sent n p = (n ≡ note.id) × (any (names p) routes ≡ true)

  -- every delivery was there before, or is of the note and to a recipient of the routes
  abbrev pub Follows : List Logical → Type 0
  Follows ls =
      (n p : String) → any (is_for n p) ls ≡ true → (any (is_for n p) old ≡ true) ⊎ Sent n p

  place-Follows :
      (d : Logical) (ls : List Logical)
      → 0 < d.sequence
      → Sent d.note_id d.recipient
      → is_new_logical d ls ≡ true
      → Follows ls
      → Follows (place d ls)
  place-Follows d ls _ sent _ h n p e = elim (Bool-cases (is_for n p d)) [
    | inl here ↦
        let n_is : d.note_id ≡ n = (eq_iff d.note_id n).0 (ground arith) in
        let p_is : d.recipient ≡ p = (eq_iff d.recipient p).0 (ground arith) in
        inr (sym n_is ∙ sent.0, rw p_is at (sent.1))
    | inr other ↦
        let e' : (is_for n p d || any (is_for n p) ls) ≡ true =
          sym (any-place (is_for n p) d ls) ∙ e in
        h n p (ground arith)
  ]

  retrace_logical-Follows :
      (env : DeliveryEnv) (trace id : String) (ls : List Logical)
      → Follows ls
      → Follows (retrace_logical env trace id ls)
  retrace_logical-Follows env trace id ls h n p e =
      h n p (sym (any-retrace_logical env trace id n p ls) ∙ e)

  -- a generation on routes
  pub generate_for_note-Follows :
      (env : DeliveryEnv) (trace : Option String) (s : Ops)
      → Ascends 0 s.deliveries s.last_delivery
      → s.logical ≡ old
      → ((found : List Route)
          → (snapshotted_targets env.now note s).0 ≡ ok found
          → (p : String) → any (names p) found ≡ true
          → any (names p) routes ≡ true)
      → Follows (generate_for_note env trace note s).1.logical
  generate_for_note-Follows env trace s h same within =
      let start : Follows s.logical = rw same (λ n p e. inl e) in
      (generate_for_note-Kept env Unwatched Follows Sent place-Follows (λ rows x new f. tt)
        (λ id new rows f. tt) (retrace_logical-Follows env) trace note s
        (λ found e.
          allowed_groups (Sent note.id) (recipients_of found)
            (λ p is_in. (refl, within found e p (any-recipients_of p found is_in))))
        (tt, h, start)).2

-- Where a snapshot of a note is there, a generation for any version of the note adds no logical
-- delivery but of that note and to a recipient of the routes of that snapshot. The sequences of
-- `deliveries` ascend from above zero.
pub deliveries_follow_snapshot :
    (env : DeliveryEnv) (trace : Option String) (note : Note) (s : Ops) (row : Snapshot)
    (n p : String)
    → Ascends 0 s.deliveries s.last_delivery
    → find_snapshot note.id s.snapshots ≡ some row
    → any (is_for n p) (generate_for_note env trace note s).1.logical ≡ true
    → (any (is_for n p) s.logical ≡ true)
      ⊎ ((n ≡ note.id) × (any (λ r. r.recipient == p) row.routes ≡ true))
unfolding snapshotted_targets take_snapshot
deliveries_follow_snapshot env trace note s row n p h there e =
    generate_for_note-Follows note row.routes s.logical env trace s h refl
      (λ found e p is_in.
        let e' : ok (select (λ r. is_reason r.reason) row.routes) ≡ ok found =
          rw (snapshotted_targets, there) at e in
        let same : select (λ r. is_reason r.reason) row.routes ≡ found = cc in
        any-select (names p) (λ r. is_reason r.reason) row.routes (rw (← same) at is_in))
      n p e
