-- ===== src/Prelude/Lists.antt =====
-- Lists measured and searched as the program does: native lengths, `in` on a list of texts.
use Prim.Native.Nat.{ℕ, zero, suc, ◌+◌, min}
use Prim.Native.String.{String}
use mathlib.Core.Path.{◌≡◌, refl}
use mathlib.Core.Bool.{Bool, true, false, ◌||◌}
use mathlib.Core.Option.{Option, none, some}
use mathlib.Core.List.{List, [], ◌∷◌, ◌++◌}
use native.Mathlib.Omega.{arith}
use text.Mathlib.Text.{◌==◌}
use mathlib.Core.Logic.{inl, inr}
use a2a_superhub.Prelude.Tests.{Bool-cases, if◌then◌else◌}

-- `x in {…}`, on texts
abbrev pub elem : String → List String → Bool
elem x [] = false
elem x (y ∷ ys) = x == y || elem x ys

module _ {ℓ} {A : Type ℓ} where
  abbrev pub length : List A → ℕ
  length [] = 0
  length (x ∷ xs) = suc (length xs)

  abbrev pub take : ℕ → List A → List A
  take zero xs = []
  take (suc n) [] = []
  take (suc n) (x ∷ xs) = x ∷ take n xs

  abbrev pub get_elem? : List A → ℕ → Option A
  get_elem? [] i = none
  get_elem? (x ∷ xs) zero = some x
  get_elem? (x ∷ xs) (suc i) = get_elem? xs i

  -- the elements that pass a test, in order (a `WHERE` clause)
  abbrev pub select : (A → Bool) → List A → List A
  select p [] = []
  select p (x ∷ xs) = let rest = select p xs in if p x then x ∷ rest else rest

  -- the first element that passes a test (`fetchone`)
  abbrev pub find : (A → Bool) → List A → Option A
  find p [] = none
  find p (x ∷ xs) = if p x then some x else find p xs

  abbrev pub any : (A → Bool) → List A → Bool
  any p [] = false
  any p (x ∷ xs) = p x || any p xs

  insert_sorted : (A → A → Bool) → A → List A → List A
  insert_sorted le x [] = x ∷ []
  insert_sorted le x (y ∷ ys) =
      let rest = insert_sorted le x ys in if le x y then x ∷ y ∷ ys else y ∷ rest

  -- `ORDER BY`, `sorted`: stable, by a test `le` for "not after"
  unfoldable pub sort_by : (A → A → Bool) → List A → List A
  unfolding insert_sorted
  sort_by le [] = []
  sort_by le (x ∷ xs) = insert_sorted le x (sort_by le xs)

  pub length-append : (xs ys : List A) → length (xs ++ ys) ≡ length xs + length ys
  length-append [] ys = omega arith
  length-append (x ∷ xs) ys = omega (arith, length-append xs ys)

  pub length-take : (n : ℕ) (xs : List A) → length (take n xs) ≡ min n (length xs)
  length-take zero xs = omega arith
  length-take (suc n) [] = omega arith
  length-take (suc n) (x ∷ xs) = omega (arith, length-take n xs)

  pub select-append :
      (p : A → Bool) (xs ys : List A) → select p (xs ++ ys) ≡ select p xs ++ select p ys
  select-append p [] ys = refl
  select-append p (x ∷ xs) ys = ground (arith, select-append p xs ys)

  -- what `find` returns passes the test
  pub find-some : (p : A → Bool) (xs : List A) {a : A} → find p xs ≡ some a → p a ≡ true
  find-some p [] h = cc
  find-some p (x ∷ xs) h = elim (Bool-cases (p x)) [
    | inl e ↦ ground arith
    | inr e ↦ find-some p xs (ground arith)
  ]

  -- an element that is added last is found if no earlier one passes
  pub find-append_new :
      (p : A → Bool) (xs : List A) (a : A)
      → find p xs ≡ none
      → p a ≡ true
      → find p (xs ++ a ∷ []) ≡ some a
  find-append_new p [] a none_before h = rw h
  find-append_new p (x ∷ xs) a none_before h = ground (arith, find-append_new p xs a)

  pub find-append_other :
      (p : A → Bool) (xs : List A) (a : A) → p a ≡ false → find p (xs ++ a ∷ []) ≡ find p xs
  find-append_other p [] a h = rw h
  find-append_other p (x ∷ xs) a h = rw (find-append_other p xs a h)

  pub any-append : (p : A → Bool) (xs ys : List A) → any p (xs ++ ys) ≡ (any p xs || any p ys)
  any-append p [] ys = refl
  any-append p (x ∷ xs) ys = ground (arith, any-append p xs ys)

  pub any-append_left : (p : A → Bool) (xs ys : List A) → any p xs ≡ true → any p (xs ++ ys) ≡ true
  any-append_left p [] ys h = cc
  any-append_left p (x ∷ xs) ys h = ground (arith, any-append_left p xs ys)

  pub any-append_last :
      (p : A → Bool) (xs : List A) (a : A) → p a ≡ true → any p (xs ++ a ∷ []) ≡ true
  any-append_last p [] a h = rw h
  any-append_last p (x ∷ xs) a h = ground (arith, any-append_last p xs a h)

  any-insert_sorted :
      (p : A → Bool) (le : A → A → Bool) (x : A) (xs : List A)
      → any p (insert_sorted le x xs) ≡ (p x || any p xs)
  unfolding insert_sorted
  any-insert_sorted p le x [] = refl
  any-insert_sorted p le x (y ∷ ys) = ground (arith, any-insert_sorted p le x ys)

  -- sorting keeps what is in a list
  pub any-sort_by :
      (p : A → Bool) (le : A → A → Bool) (xs : List A) → any p (sort_by le xs) ≡ any p xs
  unfolding sort_by
  any-sort_by p le [] = refl
  any-sort_by p le (x ∷ xs) =
      rw (any-insert_sorted p le x (sort_by le xs), any-sort_by p le xs) refl
