-- ===== src/Dict.antt =====
-- A Python dict with texts as keys: its items in insertion order.
use a2a_superhub.Prelude.{String, List, Option, ◌∷◌, none, if◌then◌else◌, ◌==◌, some, []}
use Prim.Native.String.{String}
pub mod Laws

module _ {ℓ} {V : Type ℓ} where
  -- `d.get(key)`
  unfoldable pub lookup : String → List (String × V) → Option V
  lookup key [] = none
  lookup key ((k, v) ∷ rest) = if k == key then some v else lookup key rest

  -- `d[key] = value`
  unfoldable pub put : String → V → List (String × V) → List (String × V)
  put key v [] = (key, v) ∷ []
  put key v ((k, old) ∷ rest) =
      let rest' = put key v rest in if k == key then (k, v) ∷ rest else (k, old) ∷ rest'

  -- `d.pop(key, None)`
  unfoldable pub pop : String → List (String × V) → List (String × V)
  pop key [] = []
  pop key ((k, v) ∷ rest) = let rest' = pop key rest in if k == key then rest' else (k, v) ∷ rest'
