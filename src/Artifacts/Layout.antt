-- ===== src/Artifacts/Layout.antt =====
-- The layout of an upload: its chunks have sizes that add up to the size of the artifact.
use a2a_superhub.Artifacts.Uploads.{chunk_count_of, expected_size}
use a2a_superhub.Artifacts.Tables.{Session}
use native.Mathlib.Nat.{div-mul-le_self, lt-div-mul-add}
use a2a_superhub.Prelude.{
  refl, zero, suc, ◌*◌, ◌-◌, ◌<◌, ℕ, ◌≡◌, ◌+◌, ◌≤◌, Bool-cases, arith, eqb, inl, inr,
}

-- a session as `initiate_upload` lays it out
abbrev pub HasLayout : Session → Type 0
HasLayout x = (0 < x.chunk_size) × (x.chunk_count ≡ chunk_count_of x.size_bytes x.chunk_size)

-- the bytes of the chunks from `index` on, `n` of them
abbrev pub layout_size : Session → ℕ → ℕ → ℕ
layout_size x index zero = 0
layout_size x index (suc n) = expected_size x index + layout_size x (index + 1) n

-- All chunks but the last are full, and the last is not empty.
chunk_count_bounds :
    (size chunk : ℕ)
    → 0 < chunk
    → (size ≤ chunk_count_of size chunk * chunk)
      × (0 < size → (chunk_count_of size chunk * chunk) < size + chunk)
unfolding chunk_count_of
chunk_count_bounds size chunk h = elim (Bool-cases (eqb size 0)) [
  | inl e ↦ (ground arith, ground arith)
  | inr e ↦
      let low = div-mul-le_self (size + (chunk - 1)) chunk in
      let high = lt-div-mul-add {a = size + (chunk - 1)} {b = chunk} h in
      rw e (omega (arith, low, high), λ _. omega (arith, low, high))
]

chunk_count_of-zero : (chunk : ℕ) → chunk_count_of 0 chunk ≡ 0
unfolding chunk_count_of
chunk_count_of-zero chunk = refl

mul_mono : (a b c : ℕ) → a ≤ b → a * c ≤ b * c
mul_mono a b c h = grind arith

positive_size_from :
    (size chunk count : ℕ) → count ≡ chunk_count_of size chunk → 0 < count → 0 < size
unfolding chunk_count_of
positive_size_from zero chunk count e h = absurd (omega (arith, e, h))
positive_size_from (suc size) chunk count e h = omega arith

positive_size : (x : Session) → HasLayout x → 0 < x.chunk_count → 0 < x.size_bytes
positive_size x (h, count) some_chunks =
    positive_size_from x.size_bytes x.chunk_size x.chunk_count count some_chunks

-- a chunk that is not the last is full
room_for_chunk :
    (x : Session) (index : ℕ)
    → HasLayout x
    → index + 1 < x.chunk_count
    → (index + 1) * x.chunk_size ≤ x.size_bytes
room_for_chunk x index (h, count) more =
    let some_bytes : 0 < x.size_bytes = positive_size x (h, count) (omega arith) in
    let high = (chunk_count_bounds x.size_bytes x.chunk_size h).1 some_bytes in
    let high' : x.chunk_count * x.chunk_size < x.size_bytes + x.chunk_size = rw count high in
    let within : (index + 2) * x.chunk_size ≤ x.chunk_count * x.chunk_size =
      mul_mono (index + 2) x.chunk_count x.chunk_size (omega arith) in
    let step : (index + 2) * x.chunk_size ≡ (index + 1) * x.chunk_size + x.chunk_size =
      grind arith in
    omega (arith, high', within, step)

-- the size left after the first `index` chunks
layout_size-rest :
    (x : Session) (n index : ℕ)
    → HasLayout x
    → index + n ≡ x.chunk_count
    → layout_size x index n ≡ x.size_bytes - index * x.chunk_size
unfolding expected_size
layout_size-rest x zero index (h, count) e =
    let bounds = chunk_count_bounds x.size_bytes x.chunk_size h in
    let all : x.size_bytes ≤ index * x.chunk_size = grind (arith, bounds.0, count, e) in
    omega (arith, all)
layout_size-rest x (suc n) index (h, count) e =
    let rest = layout_size-rest x n (index + 1) (h, count) (omega arith) in
    let bounds = chunk_count_bounds x.size_bytes x.chunk_size h in
    let next : (index + 1) * x.chunk_size ≡ index * x.chunk_size + x.chunk_size = grind arith in
    elim (Bool-cases (eqb (index + 1) x.chunk_count)) [
      | inl last ↦
          let all : x.size_bytes ≤ (index + 1) * x.chunk_size =
            grind (arith, bounds.0, count, last) in
          rw last (omega (arith, rest, next, all))
      | inr more ↦
          let room = room_for_chunk x index (h, count) (ground (arith, more)) in
          rw more (omega (arith, rest, next, room))
    ]

-- The chunks of an upload, in the sizes that `put_chunk` asks for, add up to the announced size.
pub layout_size-all : (x : Session) → HasLayout x → layout_size x 0 x.chunk_count ≡ x.size_bytes
layout_size-all x h = omega (arith, layout_size-rest x x.chunk_count 0 h (omega arith))
