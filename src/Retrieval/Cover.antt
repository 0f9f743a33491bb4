-- ===== src/Retrieval/Cover.antt =====
-- The loop of `deterministic_chunks` ends, and its slices cover the text.
use mathlib.Core.Option.{some-injective}
use a2a_superhub.Text.{count_chars}
use a2a_superhub.Retrieval.{
  rfind, later, chunk_end, count_chars, cut_at, spans, deterministic_chunks, check_sizes, ChunkNote,
  make_chunks, chunk_text,
}
use a2a_superhub.Prelude.{
  ℕ, List, String, Option, ◌≡◌, ◌<◌, some, Option-cases, ◌≤◌, none, ◌+◌, refl, inl, inr, ◌∙◌, ◌∷◌,
  arith, Bool, max, min, ◌/◌, [], Bool-cases, ltb, zero, true, leb, ◌-◌, false, pos, ok, ◌||◌, sym,
}
use Prim.Native.Nat.{ℕ, max, min, suc}

-- The slices leave no gap after the first `from` characters, none is longer than the size, each
-- starts after the one before, and the last ends with the text.
abbrev pub IsCover : ℕ → ℕ → ℕ → List (ℕ × ℕ) → Type 0
IsCover len size from [] = ⊥
IsCover len size from (x ∷ []) = (x.0 ≤ from) × (x.1 ≤ x.0 + size) × (x.1 ≡ len)
IsCover len size from (x ∷ y ∷ rest) =
    (x.0 ≤ from) × (x.1 ≤ x.0 + size) × (x.0 < y.0) × IsCover len size x.1 (y ∷ rest)

rfind_bounds : (c low high i j : ℕ) (s : String) → rfind c low high i s ≡ some j → j < high
unfolding rfind
rfind_bounds c low high i j String.[] h = cc
rfind_bounds c low high i j (String.◌∷◌ d s) h = elim (Option-cases (rfind c low high (i + 1) s)) [
  | inl e ↦ let h' = rw (rfind, e) at h in ground (arith, h')
  | inr (k, e) ↦
      let h' : some k ≡ some j = rw (rfind, e) at h in rfind_bounds c low high (i + 1) j s (e ∙ h')
]

later_bounds :
    (high j : ℕ) (a b : Option ℕ)
    → ((k : ℕ) → a ≡ some k → k < high)
    → ((k : ℕ) → b ≡ some k → k < high)
    → later a b ≡ some j
    → j < high
unfolding later
later_bounds high j none b ha hb h = hb j h
later_bounds high j (some x) none ha hb h = ha j h
later_bounds high j (some x) (some y) ha hb h =
    let x_low = ha x refl in
    let y_low = hb y refl in
    let same : max x y ≡ j = some-injective (max x y) j h in omega (arith, x_low, y_low, same)

cut_at_bounds :
    (start end : ℕ) (boundary : Option ℕ)
    → start < end
    → ((k : ℕ) → boundary ≡ some k → k < end)
    → (start < cut_at start end boundary) × (cut_at start end boundary ≤ end)
unfolding cut_at
cut_at_bounds start end none h below = (omega arith, omega arith)
cut_at_bounds start end (some b) h below = let low = below b refl in ground (arith, low)

-- a chunk is not empty, not too long and within the text
chunk_end_bounds :
    (text : String) (size start : ℕ)
    → 0 < size
    → start < count_chars text
    → (start < chunk_end text size start)
      × (chunk_end text size start ≤ start + size)
      × (chunk_end text size start ≤ count_chars text)
unfolding chunk_end
chunk_end_bounds text size start some_size inside =
    let len = count_chars text in
    let end = min len (start + size) in
    let at_line = rfind 10 (start + size / 2) end 0 text in
    let at_space = rfind 32 (start + size / 2) end 0 text in
    let below = λ (k : ℕ) (e : later at_line at_space ≡ some k).
      later_bounds end k at_line at_space (λ i. rfind_bounds 10 (start + size / 2) end 0 i text)
        (λ i. rfind_bounds 32 (start + size / 2) end 0 i text) e in
    let (low, high) = cut_at_bounds start end (later at_line at_space) (omega arith) below in
    elim (Bool-cases (ltb end len)) [
      | inl e ↦ rw (chunk_end, e) (omega (arith, low), omega (arith, high), omega (arith, high))
      | inr e ↦ rw (chunk_end, e) (omega arith, omega arith, omega arith)
    ]

-- A chunk starts where the one before ended, or before that.
spans-IsCover :
    (text : String) (size overlap fuel start from : ℕ) (is_first : Bool)
    → 0 < size
    → count_chars text < start + fuel
    → start ≤ from
    → start < count_chars text
    → (rest : List (ℕ × ℕ)) × (spans fuel text size overlap is_first start
        ≡ some ((start, chunk_end text size start) ∷ rest))
      × IsCover (count_chars text) size from ((start, chunk_end text size start) ∷ rest)
unfolding spans
spans-IsCover text size overlap zero start from is_first some_size enough low inside =
    absurd (omega (arith, enough, inside))
spans-IsCover text size overlap (suc fuel) start from is_first some_size enough low inside =
    let end = chunk_end text size start in
    let (next, short, within) = chunk_end_bounds text size start some_size inside in
    let goes : ltb start (count_chars text) ≡ true = ground arith in
    elim (Bool-cases (leb (count_chars text) end)) [
      | inl e ↦ ([], rw (spans, goes, e) refl, (low, short, ground arith))
      | inr e ↦
          let before : end < count_chars text = ground arith in
          let start' = max (start + 1) (end - overlap) in
          let (rest, found, covers) =
            spans-IsCover text size overlap fuel start' end false some_size (omega arith)
              (omega arith) (omega (arith, before, next)) in
          (
            (start', chunk_end text size start') ∷ rest,
            rw (spans, goes, e, found) refl,
            (low, short, omega arith, covers),
          )
    ]

chunk_end_empty : (text : String) (size : ℕ) → count_chars text ≡ 0 → chunk_end text size 0 ≡ 0
unfolding chunk_end
chunk_end_empty text size nothing =
    let end = min (count_chars text) (0 + size) in
    let within : ltb end (count_chars text) ≡ false = ground (arith, nothing) in
    rw (chunk_end, within) (omega (arith, nothing))

spans-all :
    (text : String) (size overlap : ℕ)
    → 0 < size
    → (slices : List (ℕ × ℕ)) × (spans (suc (count_chars text)) text size overlap true 0
        ≡ some slices)
      × IsCover (count_chars text) size 0 slices
unfolding spans
spans-all text size overlap some_size = elim (Bool-cases (ltb 0 (count_chars text))) [
  | inl e ↦
      let (rest, found, covers) =
        spans-IsCover text size overlap (suc (count_chars text)) 0 0 true some_size (omega arith)
          (omega arith) (ground arith) in
      ((0, chunk_end text size 0) ∷ rest, found, covers)
  | inr e ↦
      let nothing : count_chars text ≡ 0 = ground arith in
      let at_once = chunk_end_empty text size nothing in
      let ends : leb (count_chars text) (chunk_end text size 0) ≡ true = ground (arith, nothing) in
      (
        (0, chunk_end text size 0) ∷ [],
        rw (spans, ends, e) refl,
        (omega arith, omega (arith, at_once), at_once ∙ sym nothing),
      )
]

-- `deterministic_chunks` ends, and cuts the text of the note into slices that leave no gap, where
-- the size is 32 or more and the overlap below it: the first slice starts at 0, each starts after
-- the one before and not after its end, none is longer than the size, and the last ends with the
-- text. The chunks are those of the slices in order.
pub deterministic_chunks-covers :
    (digest : String → ℕ → String → String) (note : ChunkNote) (size overlap : ℕ)
    → 32 ≤ size
    → overlap < size
    → (slices : List (ℕ × ℕ)) × (deterministic_chunks digest note (pos size) (pos overlap)
        ≡ ok (some (make_chunks digest note.id (chunk_text note) 0 slices)))
      × IsCover (count_chars (chunk_text note)) size 0 slices
unfolding deterministic_chunks check_sizes
deterministic_chunks-covers digest note size overlap large small =
    let (slices, found, covers) = spans-all (chunk_text note) size overlap (omega (arith, large)) in
    let fits : (ltb size 32 || leb size overlap) ≡ false = ground arith in
    (slices, rw (deterministic_chunks, check_sizes, fits, found) refl, covers)
