-- ===== src/Memory/Delivery/Order.antt =====
-- The table `deliveries` in the order of its key, and who has a logical delivery.
use mathlib.Core.Option.{some-injective}
use a2a_superhub.Memory.Ops.{Logical, Delivery}
use a2a_superhub.Memory.Delivery.Rows.{retrace, find_delivery, place, DeliveryEnv, retrace_logical}
use a2a_superhub.Prelude.{
  ℕ, String, List, Bool, ◌==◌, any, ◌≡◌, ◌∷◌, ◌<◌, ◌&&◌, Bool-cases, some, ◌||◌, arith, ◌≤◌, ◌++◌,
  [], inl, inr, refl,
}
use Prim.Native.String.{String, ◌∷◌}
use Prim.Native.Nat.{ℕ}

-- each row's sequence above the row's before, and `b` not below the last
abbrev pub Ascends : ℕ → List Delivery → ℕ → Type 0
Ascends a [] b = a ≤ b
Ascends a (d ∷ ds) b = (a < d.sequence) × Ascends d.sequence ds b

abbrev pub is_for : String → String → Logical → Bool
is_for note recipient d = d.note_id == note && d.recipient == recipient

pub Ascends-append :
    (a b : ℕ) (ds : List Delivery) (d : Delivery)
    → Ascends a ds b
    → b < d.sequence
    → Ascends a (ds ++ d ∷ []) d.sequence
Ascends-append a b [] d h above = (omega arith, omega arith)
Ascends-append a b (x ∷ xs) d (h, hs) above = (h, Ascends-append x.sequence b xs d hs above)

pub retrace-Ascends :
    (env : DeliveryEnv) (trace id : String) (a b : ℕ) (ds : List Delivery)
    → Ascends a ds b
    → Ascends a (retrace env trace id ds) b
unfolding retrace
retrace-Ascends env trace id a b [] h = h
retrace-Ascends env trace id a b (d ∷ ds) (h, hs) =
    elim (Bool-cases (d.delivery_id == id && env.is_generated_trace d.trace_id)) [
      | inl e ↦ rw (retrace, e) (h, retrace-Ascends env trace id d.sequence b ds hs)
      | inr e ↦ rw (retrace, e) (h, retrace-Ascends env trace id d.sequence b ds hs)
    ]

-- a delivery that is found has a sequence above the start
pub find_delivery-Ascends :
    (id : String) (a b : ℕ) (ds : List Delivery) (d : Delivery)
    → Ascends a ds b
    → find_delivery id ds ≡ some d
    → a < d.sequence
unfolding find_delivery
find_delivery-Ascends id a b [] d h found = cc
find_delivery-Ascends id a b (x ∷ xs) d (h, hs) found = elim (Bool-cases (x.delivery_id == id)) [
  | inl e ↦
      let found' : some x ≡ some d = rw (find_delivery, e) at found in
      let same : x ≡ d = some-injective x d found' in rw same at h
  | inr e ↦
      let above = find_delivery-Ascends id x.sequence b xs d hs (rw (find_delivery, e) at found) in
      omega (arith, h, above)
]

pub any-place :
    (p : Logical → Bool) (d : Logical) (ds : List Logical) → any p (place d ds) ≡ (p d || any p ds)
unfolding place
any-place p d [] = refl
any-place p d (x ∷ xs) = ground (arith, any-place p d xs)

pub any-retrace_logical :
    (env : DeliveryEnv) (trace id n p : String) (ds : List Logical)
    → any (is_for n p) (retrace_logical env trace id ds) ≡ any (is_for n p) ds
unfolding retrace_logical
any-retrace_logical env trace id n p [] = refl
any-retrace_logical env trace id n p (d ∷ ds) =
    ground (arith, any-retrace_logical env trace id n p ds)
