-- ===== src/Memory/Access.antt =====
-- Who can read a note.
use a2a_superhub.Auth.Bearer.{Principal, has}
use a2a_superhub.Memory.Notes.{
  all_readable, can_read, read_note, may_see, Note, MemoryError, derived_sources, not_found,
}
use Prim.Native.String.{String, ◌∷◌}
use Prim.Native.String
use a2a_superhub.Prelude.{
  String, List, Bool, ◌≡◌, Result, ◌∷◌, ◌⊎◌, true, inl, ok, [], arith, inr, eq_iff, Result-cases,
  err, Bool-cases,
}

-- `x in ids`, as a type
unfoldable pub Contains : String → List String → Type 0
Contains x [] = ⊥
Contains x (y ∷ ys) = (x ≡ y) ⊎ Contains x ys

all_readable-Contains :
    (readable : String → Bool) (x : String) (ids : List String)
    → all_readable readable ids ≡ true
    → Contains x ids
    → readable x ≡ true
unfolding all_readable Contains
all_readable-Contains readable x [] h c = elim c [ ]
all_readable-Contains readable x (y ∷ ys) h (inl e) = rw e (ground arith)
all_readable-Contains readable x (y ∷ ys) h (inr c) =
    all_readable-Contains readable x ys (ground arith) c

-- a visible note, by its parts
visible :
    (readable : String → Bool) (p : Principal) (note : Note)
    → can_read readable p note ≡ true
    → (has p "memory.read" ≡ true)
      × ((note.author ≡ p.subject)
          ⊎ (has p "memory.admin" ≡ true)
          ⊎ (note.visibility ≡ "shared")
          ⊎ (note.visibility ≡ String.◌++◌ "direct:" p.subject))
      × ((source : String)
          → Contains source (derived_sources note.relations)
          → readable source ≡ true)
unfolding can_read may_see
visible readable p note h =
    let shared = eq_iff note.visibility "shared" in
    let direct = eq_iff note.visibility (String.◌++◌ "direct:" p.subject) in
    let all : all_readable readable (derived_sources note.relations) ≡ true = ground arith in
    (
      ground arith,
      grind (arith, eq_iff note.author p.subject, shared, direct),
      λ source c. all_readable-Contains readable source (derived_sources note.relations) all c,
    )

-- If `read_note` gives a note to a principal, then the principal has the scope memory.read; it
-- wrote the note, has the scope memory.admin, or the note is shared or directed to it; and each
-- artifact that the note says it is derived from is one that the principal can read.
pub read_note-Visible :
    (read : String → Result MemoryError Note) (readable : String → Bool) (id : String)
    (p : Principal) (note : Note)
    → read_note read readable id p ≡ ok note
    → (has p "memory.read" ≡ true)
      × ((note.author ≡ p.subject)
          ⊎ (has p "memory.admin" ≡ true)
          ⊎ (note.visibility ≡ "shared")
          ⊎ (note.visibility ≡ String.◌++◌ "direct:" p.subject))
      × ((source : String)
          → Contains source (derived_sources note.relations)
          → readable source ≡ true)
unfolding read_note
read_note-Visible read readable id p note h = elim (Result-cases (read id)) [
  | inl (e, failed) ↦ let h' : err e ≡ ok note = rw (read_note, failed) at h in cc
  | inr (n, found) ↦ elim (Bool-cases (can_read readable p n)) [
    | inr hidden ↦ let h' : err not_found ≡ ok note = rw (read_note, found, hidden) at h in cc
    | inl seen ↦
        let h' : ok n ≡ ok note = rw (read_note, found, seen) at h in
        let same : n ≡ note = cc in
        let seen' : can_read readable p note ≡ true = rw same at seen in
        visible readable p note seen'
  ]
]
