-- ===== src/Retrieval.antt =====
-- src/a2a_superhub/retrieval.py: `deterministic_chunks`, which cuts the text of a note into pieces
-- for the search index.
pub mod Cover
mod Tests
use mathlib.Core.Option
use Prim.Native.Char.{code}
use a2a_superhub.Text.{count_chars, first_chars, skip_chars}
use a2a_superhub.Json.{strip}
use a2a_superhub.Prelude.{
  pos, negsuc, String, List, ℕ, Option, ℤ, select, if◌then◌else◌, none, some, Bool, Result, ◌∷◌,
  min, not, eqb, ltb, err, [], ◌+◌, max, ◌==◌, false, ok, ◌/◌, ◌&&◌, ◌-◌, leb, ◌||◌, zero, suc,
  true,
}
use Prim.Native.String

-- the fields that are read of a note; a field that is missing or `None` is the empty text
pub record ChunkNote : Type 0 where
  pub id : String
  pub title : String
  pub author : String
  pub project : String
  pub tags : List String
  pub relative_path : String
  pub body : String

pub record TextChunk : Type 0 where
  pub chunk_id : String
  pub note_id : String
  pub ordinal : ℕ
  pub text : String

pub data ChunkError : Type 0 where
  invalid_chunk_size : ChunkError

-- `separator.join(texts)`
unfoldable pub join : String → List String → String
join separator [] = ""
join separator (x ∷ []) = x
join separator (x ∷ y ∷ rest) = String.◌++◌ x (String.◌++◌ separator (join separator (y ∷ rest)))

-- the texts that are not empty
unfoldable pub non_empty : List String → List String
non_empty = select (λ text. not (text == ""))

unfoldable pub note_metadata : ChunkNote → String
unfolding join non_empty
note_metadata note = join "\n" (
    non_empty (
      note.id
      ∷ note.title
      ∷ note.author
      ∷ note.project
      ∷ join " " note.tags
      ∷ note.relative_path
      ∷ []))

-- `.replace("\r\n", "\n")`
unfoldable pub unix_lines : String → String
unix_lines String.[] = ""
unix_lines (String.◌∷◌ c String.[]) = String.◌∷◌ c ""
unix_lines (String.◌∷◌ c (String.◌∷◌ d s)) =
    let rest = unix_lines (String.◌∷◌ d s) in
    if eqb (code c) 13 && eqb (code d) 10 then rest else String.◌∷◌ c rest

-- `.replace("\r", "\n")`
unfoldable pub replace_returns : String → String
replace_returns String.[] = ""
replace_returns (String.◌∷◌ c s) =
    if eqb (code c) 13
    then String.◌++◌ "\n" (replace_returns s)
    else String.◌∷◌ c (replace_returns s)

unfoldable pub chunk_text : ChunkNote → String
unfolding note_metadata unix_lines replace_returns strip
chunk_text note =
    strip
      (String.◌++◌ (note_metadata note) (String.◌++◌ "\n" (replace_returns (unix_lines note.body))))

-- `text.rfind(c, low, high)`, where the characters start at index `i`; `none` is -1
unfoldable pub rfind : ℕ → ℕ → ℕ → ℕ → String → Option ℕ
rfind c low high i String.[] = none
rfind c low high i (String.◌∷◌ d s) = elim (rfind c low high (i + 1) s) [
  | some j ↦ some j
  | none ↦ if eqb (code d) c && leb low i && ltb i high then some i else none
]

-- `max` of two results of `rfind`
unfoldable pub later : Option ℕ → Option ℕ → Option ℕ
later none b = b
later (some a) none = some a
later (some a) (some b) = some (max a b)

unfoldable pub cut_at : ℕ → ℕ → Option ℕ → ℕ
cut_at start end none = end
cut_at start end (some boundary) = if ltb start boundary then boundary else end

-- where the chunk from `start` ends
unfoldable pub chunk_end : String → ℕ → ℕ → ℕ
unfolding count_chars rfind later cut_at
chunk_end text max_chars start =
    let end = min (count_chars text) (start + max_chars) in
    if ltb end (count_chars text)
    then cut_at start end (
        later (rfind 10 (start + max_chars / 2) end 0 text)
          (rfind 32 (start + max_chars / 2) end 0 text))
    else end

add_span : ℕ → ℕ → Option (List (ℕ × ℕ)) → Option (List (ℕ × ℕ))
add_span start end none = none
add_span start end (some rest) = some ((start, end) ∷ rest)

-- The loop: the slices that it takes, while `is_first` is `not chunks`. It runs on fuel.
unfoldable pub spans : ℕ → String → ℕ → ℕ → Bool → ℕ → Option (List (ℕ × ℕ))
unfolding chunk_end count_chars add_span
spans zero text max_chars overlap is_first start = none
spans (suc fuel) text max_chars overlap is_first start =
    let end = chunk_end text max_chars start in
    let rest = spans fuel text max_chars overlap false (max (start + 1) (end - overlap)) in
    if not (ltb start (count_chars text) || (is_first && eqb start 0))
    then some []
    else if leb (count_chars text) end
    then some ((start, end) ∷ [])
    else add_span start end rest

-- the chunk of a slice; `digest` is the hexadecimal SHA-256 of the text of the identifier, the
-- ordinal and the content, separated by NUL
unfoldable pub make_chunk : (String → ℕ → String → String) → String → String → ℕ → ℕ × ℕ → TextChunk
unfolding first_chars skip_chars strip
make_chunk digest note_id text ordinal (start, end) =
    let content = strip (skip_chars start (first_chars end text)) in
    record {
      chunk_id = String.◌++◌ "chk_" (first_chars 24 (digest note_id ordinal content));
      note_id = note_id;
      ordinal = ordinal;
      text = content;
    }

unfoldable pub make_chunks :
    (String → ℕ → String → String) → String → String → ℕ → List (ℕ × ℕ) → List TextChunk
unfolding make_chunk
make_chunks digest note_id text ordinal [] = []
make_chunks digest note_id text ordinal (x ∷ xs) =
    make_chunk digest note_id text ordinal x ∷ make_chunks digest note_id text (ordinal + 1) xs

-- a size of 32 or more and an overlap from 0 to below the size
unfoldable pub check_sizes : ℤ → ℤ → Option (ℕ × ℕ)
check_sizes (pos size) (pos overlap) =
    if ltb size 32 || leb size overlap then none else some (size, overlap)
check_sizes _ _ = none

-- The fuel is one more than the characters; `none` would be a loop that does not end.
unfoldable pub deterministic_chunks :
    (String → ℕ → String → String) → ChunkNote → ℤ → ℤ → Result ChunkError (Option (List TextChunk))
unfolding chunk_text spans count_chars make_chunks check_sizes
deterministic_chunks digest note max_chars overlap_chars =
    elim (check_sizes max_chars overlap_chars) [
      | none ↦ err invalid_chunk_size
      | some (size, overlap) ↦
          let text = chunk_text note in
          ok (
            Option.map (make_chunks digest note.id text 0)
              (spans (suc (count_chars text)) text size overlap true 0))
    ]
