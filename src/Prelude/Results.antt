-- ===== src/Prelude/Results.antt =====
-- Results of fallible code, and methods that change an object and may raise: what was written
-- before a raise stays written, unless a transaction rolls it back.
use mathlib.Core.Logic.{◌⊎◌, inl, inr}
use mathlib.Core.Path.{◌≡◌, refl}
use mathlib.Core.Bool.{Bool, true, false}

pub data Result {ℓ κ} (E : Type ℓ) (A : Type κ) : Type (ℓ ⊔ κ) where
  ok : A → Result E A
  err : E → Result E A

abbrev pub map_ok {ℓ κ μ} :
    {E : Type ℓ} {A : Type κ} {B : Type μ} → (A → B) → Result E A → Result E B
map_ok f (ok a) = ok (f a)
map_ok f (err e) = err e

pub Result-cases {ℓ κ} :
    {E : Type ℓ} {A : Type κ} (r : Result E A) → ((e : E) × (r ≡ err e)) ⊎ ((a : A) × (r ≡ ok a))
Result-cases (err e) = inl (e, refl)
Result-cases (ok a) = inr (a, refl)

abbrev pub Exec : Type 0 → Type 0 → Type 0 → Type 0
Exec E S A = S → Result E A × S

module _ {E S A : Type 0} where
  abbrev pub pure : A → Exec E S A
  pure a s = (ok a, s)

  abbrev pub raise : E → Exec E S A
  raise e s = (err e, s)

  abbrev pub lift : Result E A → Exec E S A
  lift r s = (r, s)

  abbrev pub gets : (S → A) → Exec E S A
  gets f s = (ok (f s), s)

  abbrev pub commit_or_rollback : S → Result E A × S → Result E A × S
  commit_or_rollback before (ok a, after) = (ok a, after)
  commit_or_rollback before (err e, after) = (err e, before)

  -- `with self.connect() as conn`: commit at the end, roll back on any exception
  abbrev pub transaction : Exec E S A → Exec E S A
  transaction m s = commit_or_rollback s (m s)

module _ {E S : Type 0} where
  abbrev pub modify : (S → S) → Exec E S (Unit {0})
  modify f s = (ok tt, f s)

  abbrev pub raise_if : Bool → E → Exec E S (Unit {0})
  raise_if true e s = (err e, s)
  raise_if false e s = (ok tt, s)

abbrev pub continue : {E S A B : Type 0} → (A → Exec E S B) → Result E A × S → Result E B × S
continue f (ok a, s) = f a s
continue f (err e, s) = (err e, s)

infixl 5 ◌>>=◌ ◌>>◌
abbrev pub ◌>>=◌ : {E S A B : Type 0} → Exec E S A → (A → Exec E S B) → Exec E S B
◌>>=◌ m f s = continue f (m s)

abbrev pub ◌>>◌ : {E S B : Type 0} → Exec E S (Unit {0}) → Exec E S B → Exec E S B
m >> k = m >>= λ _. k

-- a call raised, wherever that left the state
abbrev pub Raised : {E S A : Type 0} → Result E A × S → Type 0
Raised {E} {S} result = (e : E) × (s : S) × (result ≡ (err e, s))

module _ {E A B : Type 0} where
  -- what follows a result, without a state
  abbrev pub and_then : Result E A → (A → Result E B) → Result E B
  and_then (ok a) f = f a
  and_then (err e) f = err e

  pub ok-and_then :
      (r : Result E A) (f : A → Result E B) (b : B)
      → and_then r f ≡ ok b
      → (a : A) × (r ≡ ok a) × (f a ≡ ok b)
  ok-and_then (ok a) f b h = (a, refl, h)
  ok-and_then (err e) f b h = cc
