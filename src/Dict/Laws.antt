-- ===== src/Dict/Laws.antt =====
-- What a read of a dict gives after a write.
use a2a_superhub.Dict.{lookup, put, pop, List, some}
use a2a_superhub.Prelude.{
  refl, [], ◌∷◌, String, List, ◌≡◌, ◌==◌, false, some, eq_iff, Bool-cases, ◌⊎◌, inl, inr, arith,
  sym, ◌∙◌,
}

module _ {ℓ} {V : Type ℓ} where
  pub lookup-put :
      (key : String) (v : V) (xs : List (String × V)) → lookup key (put key v xs) ≡ some v
  unfolding lookup put
  lookup-put key v [] = rw ((eq_iff key key).1 refl) refl
  lookup-put key v ((k, old) ∷ rest) = elim (Bool-cases (k == key)) [
    | inl e ↦ rw (e, e) refl
    | inr e ↦ rw (e, e) (lookup-put key v rest)
  ]

  pub lookup-put_other :
      (key other : String) (v : V) (xs : List (String × V))
      → (other == key) ≡ false
      → lookup key (put other v xs) ≡ lookup key xs
  unfolding lookup put
  lookup-put_other key other v [] h = rw h refl
  lookup-put_other key other v ((k, old) ∷ rest) h = elim (Bool-cases (k == other)) [
    | inl e ↦ let apart : (k == key) ≡ false = ground (arith, eq_iff k other) in rw (e, apart) refl
    | inr e ↦ ground (arith, lookup-put_other key other v rest h)
  ]

  pub lookup-pop_other :
      (key other : String) (xs : List (String × V))
      → (other == key) ≡ false
      → lookup key (pop other xs) ≡ lookup key xs
  unfolding lookup pop
  lookup-pop_other key other [] h = refl
  lookup-pop_other key other ((k, v) ∷ rest) h = elim (Bool-cases (k == other)) [
    | inl e ↦
        let apart : (k == key) ≡ false = ground (arith, eq_iff k other) in
        rw (e, apart) (lookup-pop_other key other rest h)
    | inr e ↦ ground (arith, lookup-pop_other key other rest h)
  ]

  -- what is found under a key after a write was there before, or is what was written
  pub lookup-put_cases :
      (key other : String) (v w : V) (xs : List (String × V))
      → lookup key (put other v xs) ≡ some w
      → ((other ≡ key) × (w ≡ v)) ⊎ (lookup key xs ≡ some w)
  lookup-put_cases key other v w xs h = elim (Bool-cases (other == key)) [
    | inl e ↦
        let same : other ≡ key = (eq_iff other key).0 e in
        let found : some v ≡ some w = sym (lookup-put key v xs) ∙ rw same at h in inl (same, cc)
    | inr e ↦ inr (sym (lookup-put_other key other v xs e) ∙ h)
  ]
