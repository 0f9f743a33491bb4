-- ===== src/Memory/Delivery/Targets.antt =====
-- Whom the first generation for a note reaches.
use a2a_superhub.Auth.Bearer.{after_prefix}
use a2a_superhub.Memory.Delivery.Rows.{DeliveryEnv}
use a2a_superhub.Memory.Delivery.Order.{is_for, Ascends}
use a2a_superhub.Memory.Notes.{Note}
use a2a_superhub.Memory.Delivery.Routes.{
  sort_routes, snapshotted_targets, add_route, to_set, take_snapshot, find_snapshot, same_route,
  about_routes, direct_routes, delivery_targets,
}
use a2a_superhub.Memory.Ops.{Route, Ops}
use a2a_superhub.Memory.Delivery.Generate.{generate_for_note}
use a2a_superhub.Prelude.{
  String, List, ◌==◌, any, ◌≡◌, select, true, ◌⊎◌, ◌∷◌, inr, inl, arith, Bool-cases, [], eq_iff,
  refl, sym, any-sort_by, ◌∙◌, Option, ◌||◌, ok, some, false, not, none, ◌++◌, any-append,
  Option-cases, ap,
}
use Prim.Native.String.{String, ◌∷◌}
use a2a_superhub.Memory.Delivery.Recipients.{names, any-select, generate_for_note-Follows}

-- Who gets a delivery: the routes that were first recorded for a note.

any-add_route :
    (p : String) (r : Route) (done : List Route)
    → any (names p) (add_route r done) ≡ true
    → (any (names p) done ≡ true) ⊎ ((r.recipient == p) ≡ true)
unfolding add_route
any-add_route p r done h = elim (Bool-cases (any (same_route r) done)) [
  | inl e ↦ inl (rw (add_route, e) at h)
  | inr e ↦
      let h' : any (names p) (done ++ r ∷ []) ≡ true = rw (add_route, e) at h in
      let split : (any (names p) done || any (names p) (r ∷ [])) ≡ true =
        sym (any-append (names p) done (r ∷ [])) ∙ h' in
      ground arith
]

any-to_set :
    (p : String) (rs done : List Route)
    → any (names p) (to_set done rs) ≡ true
    → (any (names p) done ≡ true) ⊎ (any (names p) rs ≡ true)
unfolding to_set
any-to_set p [] done h = inl h
any-to_set p (r ∷ rs) done h = elim (any-to_set p rs (add_route r done) h) [
  | inr later ↦ inr (ground arith)
  | inl before ↦ elim (any-add_route p r done before) [
    | inl old ↦ inl old
    | inr here ↦ inr (ground arith)
  ]
]

any-about_routes :
    (p : String) (about : List String)
    → any (names p) (about_routes about) ≡ any (λ subject. subject == p) about
unfolding about_routes
any-about_routes p [] = refl
any-about_routes p (x ∷ xs) = rw (any-about_routes p xs) refl

any-direct_routes :
    (p : String) (note : Note)
    → any (names p) (direct_routes note) ≡ true
    → after_prefix "direct:" note.visibility ≡ some p
unfolding direct_routes
any-direct_routes p note h = elim (Option-cases (after_prefix "direct:" note.visibility)) [
  | inl e ↦ let h' : false ≡ true = rw (direct_routes, e) at h in cc
  | inr (recipient, e) ↦
      let h' = rw (direct_routes, e) at h in
      let here : (recipient == p) ≡ true = elim (Bool-cases (note.kind == "handoff")) [
        | inl k ↦ let h2 = rw k at h' in ground arith
        | inr k ↦ let h2 = rw k at h' in ground arith
      ] in
      e ∙ ap some ((eq_iff recipient p).0 here)
]

-- who is a target of a note
abbrev pub IsTarget : Note → String → Type 0
IsTarget note p =
    ((p == note.author) ≡ false)
    × ((any (λ subject. subject == p) note.about ≡ true)
        ⊎ (after_prefix "direct:" note.visibility ≡ some p))

not_author :
    (p author : String) (rs : List Route)
    → any (names p) (select (λ r. not (r.recipient == author)) rs) ≡ true
    → (p == author) ≡ false
not_author p author [] h = cc
not_author p author (r ∷ rs) h = elim (Bool-cases (r.recipient == author)) [
  | inl e ↦ not_author p author rs (rw e at h)
  | inr e ↦ elim (Bool-cases (r.recipient == p)) [
    | inl same ↦ let is_p = (eq_iff r.recipient p).0 same in rw is_p at e
    | inr other ↦ not_author p author rs (rw (e, other) at h)
  ]
]

pub delivery_targets-IsTarget :
    (note : Note) (p : String) → any (names p) (delivery_targets note) ≡ true → IsTarget note p
unfolding delivery_targets
delivery_targets-IsTarget note p h =
    let proposed = about_routes note.about ++ direct_routes note in
    let in_set =
      any-select (names p) (λ r. not (r.recipient == note.author)) (to_set [] proposed) h in
    let in_proposed =
      elim (any-to_set p proposed [] in_set) as (λ _. any (names p) proposed ≡ true) [
        | inl nobody ↦ cc
        | inr e ↦ e
      ] in
    let split : (any (names p) (about_routes note.about) || any (names p) (direct_routes note))
        ≡ true =
      sym (any-append (names p) (about_routes note.about) (direct_routes note)) ∙ in_proposed in
    (
      not_author p note.author (to_set [] proposed) h,
      elim (Bool-cases (any (names p) (about_routes note.about))) [
        | inl e ↦ inl (sym (any-about_routes p note.about) ∙ e)
        | inr e ↦ inr (any-direct_routes p note (ground arith))
      ],
    )

-- The first generation for a note adds no logical delivery but of that note, and to a recipient who
-- is not its author and whom it is about or directed to. There is no snapshot of the note before,
-- and the sequences of `deliveries` ascend from above zero.
pub first_deliveries_reach_targets :
    (env : DeliveryEnv) (trace : Option String) (note : Note) (s : Ops) (n p : String)
    → Ascends 0 s.deliveries s.last_delivery
    → find_snapshot note.id s.snapshots ≡ none
    → any (is_for n p) (generate_for_note env trace note s).1.logical ≡ true
    → (any (is_for n p) s.logical ≡ true)
      ⊎ ((n ≡ note.id)
          × ((p == note.author) ≡ false)
          × ((any (λ subject. subject == p) note.about ≡ true)
              ⊎ (after_prefix "direct:" note.visibility ≡ some p)))
unfolding snapshotted_targets take_snapshot sort_routes
first_deliveries_reach_targets env trace note s n p h new e =
    elim (generate_for_note-Follows note (delivery_targets note) s.logical env trace s h refl
      (λ found e p is_in.
        let e' : ok (sort_routes (delivery_targets note)) ≡ ok found =
          rw (snapshotted_targets, new) at e in
        let same : sort_routes (delivery_targets note) ≡ found = cc in
        let is_in' : any (names p) (sort_routes (delivery_targets note)) ≡ true =
          rw (← same) at is_in in
        sym (any-sort_by (names p) _ (delivery_targets note)) ∙ is_in')
      n p e) [
        | inl before ↦ inl before
        | inr (is_note, named) ↦
            let (other, target) = delivery_targets-IsTarget note p named in
            inr (is_note, other, target)
      ]
