-- ===== src/Prelude/Keeping.antt =====
-- Predicates on the state that an action keeps, whether it returns or raises.
use mathlib.Core.Path.{◌≡◌, refl}
use mathlib.Core.Bool.{Bool, true, false}
use a2a_superhub.Prelude.Results.{
  Result, ok, err, Exec, lift, modify, raise_if, transaction, commit_or_rollback, continue, ◌>>=◌,
  ◌>>◌,
}

module _ {E S : Type 0} (P : S → Type 0) where
  abbrev pub Preserves : {A : Type 0} → Exec E S A → Type 0
  Preserves m = (s : S) → P s → P (m s).1

  pub Preserves-continue :
      {A B : Type 0} (f : A → Exec E S B) (result : Result E A × S)
      → P result.1
      → ((a : A) → result.0 ≡ ok a → Preserves (f a))
      → P (continue f result).1
  Preserves-continue f (ok a, s) h k = k a refl s h
  Preserves-continue f (err e, s) h k = h

  pub Preserves-bind :
      {A B : Type 0} (m : Exec E S A) (f : A → Exec E S B)
      → Preserves m
      → ((a : A) → Preserves (f a))
      → Preserves (m >>= f)
  Preserves-bind m f keep next s h = Preserves-continue f (m s) (keep s h) (λ a e. next a)

  -- what follows a check or a read that does not change the state
  pub Preserves-lift :
      {A B : Type 0} (r : Result E A) (f : A → Exec E S B)
      → ((a : A) → r ≡ ok a → Preserves (f a))
      → Preserves (lift r >>= f)
  Preserves-lift (ok a) f next s h = next a refl s h
  Preserves-lift (err e) f next s h = h

  pub Preserves-raise_if :
      {B : Type 0} (test : Bool) (e : E) (k : Exec E S B)
      → (test ≡ false → Preserves k)
      → Preserves (raise_if test e >> k)
  Preserves-raise_if true e k next s h = h
  Preserves-raise_if false e k next s h = next refl s h

  pub Preserves-modify :
      {B : Type 0} (f : S → S) (k : Exec E S B)
      → ((s : S) → P s → P (f s))
      → Preserves k
      → Preserves (modify f >> k)
  Preserves-modify f k step next s h = next (f s) (step s h)

  -- what follows an action, from the state that it leaves
  pub Preserves-after :
      {A B : Type 0} (f : A → Exec E S B) (result : Result E A × S)
      → P result.1
      → ((a : A) → result.0 ≡ ok a → P (f a result.1).1)
      → P (continue f result).1
  Preserves-after f (ok a, s) h next = next a refl
  Preserves-after f (err e, s) h next = h

  -- what follows a check, at one state
  pub Preserves-check :
      {B : Type 0} (test : Bool) (e : E) (k : Exec E S B) (s : S)
      → P s
      → (test ≡ false → P (k s).1)
      → P ((raise_if test e >> k) s).1
  Preserves-check true e k s h next = h
  Preserves-check false e k s h next = next refl

module _ {E S A : Type 0} (P : S → Type 0) where
  Preserves-commit_or_rollback :
      (before : S) (result : Result E A × S)
      → P before
      → P result.1
      → P (commit_or_rollback before result).1
  Preserves-commit_or_rollback before (ok a, after) h k = k
  Preserves-commit_or_rollback before (err e, after) h k = h

  -- a transaction that rolls back leaves the state it started from
  pub Preserves-transaction : (m : Exec E S A) → Preserves P m → Preserves P (transaction m)
  Preserves-transaction m keep s h = Preserves-commit_or_rollback s (m s) h (keep s h)

-- What an action that has returned went through.
module _ {E S A B : Type 0} where
  pub ok-continue :
      (f : A → Exec E S B) (result : Result E A × S) (b : B) (s' : S)
      → continue f result ≡ (ok b, s')
      → (a : A) × (result ≡ (ok a, result.1)) × (f a result.1 ≡ (ok b, s'))
  ok-continue f (ok a, s) b s' h = (a, refl, h)
  ok-continue f (err e, s) b s' h = cc

  pub ok-lift :
      (r : Result E A) (f : A → Exec E S B) (s : S) (b : B) (s' : S)
      → continue f (r, s) ≡ (ok b, s')
      → (a : A) × (r ≡ ok a) × (f a s ≡ (ok b, s'))
  ok-lift (ok a) f s b s' h = (a, refl, h)
  ok-lift (err e) f s b s' h = cc

module _ {E S B : Type 0} where
  pub ok-check :
      (test : Bool) (e : E) (k : Exec E S B) (s : S) (b : B) (s' : S)
      → (raise_if test e >> k) s ≡ (ok b, s')
      → (test ≡ false) × (k s ≡ (ok b, s'))
  ok-check true e k s b s' h = cc
  ok-check false e k s b s' h = (refl, h)
