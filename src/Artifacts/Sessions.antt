-- ===== src/Artifacts/Sessions.antt =====
-- Upload sessions keep their layout, and every chunk that is stored fits it.
use a2a_superhub.Dict.Laws.{lookup-put_cases, lookup-put, lookup-put_other}
use a2a_superhub.Artifacts.Checks.{is_upload_id}
use a2a_superhub.Artifacts.Layout.{HasLayout}
use a2a_superhub.Dict.{lookup}
use a2a_superhub.Artifacts.Uploads.{
  expected_size, session_file, get_upload, save_session, find_chunk, check_session, drop_chunks,
}
use a2a_superhub.Artifacts.Tables.{ArtifactStore, Session, Bytes, Chunk, artifact_error}
use a2a_superhub.Prelude.{
  refl, none, some, [], ◌∷◌, String, Option, ◌≡◌, ℕ, ok, List, Bool-cases, arith, ◌==◌, ◌<◌, eq_iff,
  inl, ◌++◌, false, length, inr, ◌⊎◌, err, sym, ◌&&◌, ◌∙◌, eqb,
}

pub record IsLaidOut (s : ArtifactStore) : Type 0 where
  pub sessions :
      (id : String) (file : Option Session)
      → lookup id s.sessions ≡ some file
      → (x : Session) × (file ≡ some x) × (x.upload_id ≡ id) × HasLayout x
  pub chunks :
      (id : String) (i : ℕ) (content : Bytes)
      → find_chunk id i s.chunks ≡ some content
      → (x : Session) × (lookup id s.sessions ≡ some (some x))
        × (i < x.chunk_count)
        × (length content ≡ expected_size x i)

-- the same sizes
abbrev pub SameLayout : Session → Session → Type 0
SameLayout x y =
    (x.size_bytes ≡ y.size_bytes) × (x.chunk_size ≡ y.chunk_size) × (x.chunk_count ≡ y.chunk_count)

pub expected_size-SameLayout :
    (x y : Session) (i : ℕ) → SameLayout x y → expected_size x i ≡ expected_size y i
unfolding expected_size
expected_size-SameLayout x y i (size, chunk, count) = rw (size, chunk, count) refl

check_session-ok :
    (id : String) (x : Session) (file : Option (Option Session))
    → session_file id file ≡ ok x
    → (file ≡ some (some x)) × (x.upload_id ≡ id)
unfolding session_file check_session
check_session-ok id x none h = cc
check_session-ok id x (some none) h = cc
check_session-ok id x (some (some y)) h = ground (arith, eq_iff y.upload_id id)

-- what `get_upload` reads is in the file, under its identifier
pub get_upload-ok :
    (id : String) (x : Session) (s : ArtifactStore)
    → get_upload id s ≡ ok x
    → (lookup id s.sessions ≡ some (some x)) × (x.upload_id ≡ id)
unfolding get_upload
get_upload-ok id x s h = elim (Bool-cases (is_upload_id id)) [
  | inl e ↦ check_session-ok id x (lookup id s.sessions) (rw (get_upload, e) at h)
  | inr e ↦ let h' : err artifact_error ≡ ok x = rw (get_upload, e) at h in cc
]

-- saving a session again, with the layout that it had
pub save_session-IsLaidOut :
    (x y : Session) (s : ArtifactStore)
    → lookup x.upload_id s.sessions ≡ some (some y)
    → SameLayout x y
    → HasLayout y
    → IsLaidOut s
    → IsLaidOut (save_session x s)
unfolding save_session
save_session-IsLaidOut x y s there (size, chunk, count) layout h = record {
  sessions = λ id file found.
      elim (lookup-put_cases id x.upload_id (some x) file s.sessions found) [
        | inl (k, f) ↦ (x, f, k, rw (size, chunk, count) layout)
        | inr old ↦ h.sessions id file old
      ];
  chunks = λ id i content found.
      let (z, at_z, bound, fits) = h.chunks id i content found in
      elim (Bool-cases (x.upload_id == id)) [
        | inl e ↦
            let k : x.upload_id ≡ id = (eq_iff x.upload_id id).0 e in
            let z_is_y : some (some z) ≡ some (some y) = sym at_z ∙ rw k at there in
            let z_y : z ≡ y = cc in
            (
              x,
              rw (← k) (lookup-put x.upload_id (some x) s.sessions),
              rw (count, ← z_y) bound,
              rw (expected_size-SameLayout x y i (size, chunk, count), ← z_y) fits,
            )
        | inr other ↦
            (z, lookup-put_other id x.upload_id (some x) s.sessions other ∙ at_z, bound, fits)
      ];
}

-- a new session, under an identifier that no session has
pub new_session-IsLaidOut :
    (x : Session) (s : ArtifactStore)
    → lookup x.upload_id s.sessions ≡ none
    → HasLayout x
    → IsLaidOut s
    → IsLaidOut (save_session x s)
unfolding save_session
new_session-IsLaidOut x s fresh layout h = record {
  sessions = λ id file found.
      elim (lookup-put_cases id x.upload_id (some x) file s.sessions found) [
        | inl (k, f) ↦ (x, f, k, layout)
        | inr old ↦ h.sessions id file old
      ];
  chunks = λ id i content found.
      let (z, at_z, bound, fits) = h.chunks id i content found in
      elim (Bool-cases (x.upload_id == id)) [
        | inl e ↦
            let k : x.upload_id ≡ id = (eq_iff x.upload_id id).0 e in
            let clash : none ≡ some (some z) = sym (rw k at fresh) ∙ at_z in cc
        | inr other ↦
            (z, lookup-put_other id x.upload_id (some x) s.sessions other ∙ at_z, bound, fits)
      ];
}

pub find_chunk-append :
    (id : String) (i : ℕ) (cs : List Chunk) (c : Chunk) (content : Bytes)
    → find_chunk id i (cs ++ c ∷ []) ≡ some content
    → (find_chunk id i cs ≡ some content)
      ⊎ ((c.upload_id ≡ id) × (c.index ≡ i) × (c.content ≡ content))
unfolding find_chunk
find_chunk-append id i [] c content h = elim (Bool-cases (c.upload_id == id && eqb c.index i)) [
  | inl e ↦
      let h' : some c.content ≡ some content = rw e at h in
      inr (ground (arith, eq_iff c.upload_id id), ground arith, cc)
  | inr e ↦ let h' : none ≡ some content = rw e at h in cc
]
find_chunk-append id i (x ∷ xs) c content h =
    elim (Bool-cases (x.upload_id == id && eqb x.index i)) [
      | inl e ↦ inl (rw e (rw e at h))
      | inr e ↦ rw e (find_chunk-append id i xs c content (rw e at h))
    ]

find_chunk-drop_self :
    (id : String) (i : ℕ) (cs : List Chunk) → find_chunk id i (drop_chunks id cs) ≡ none
unfolding find_chunk drop_chunks
find_chunk-drop_self id i [] = refl
find_chunk-drop_self id i (c ∷ cs) = elim (Bool-cases (c.upload_id == id)) [
  | inl e ↦ rw e (find_chunk-drop_self id i cs)
  | inr e ↦ rw (e, e) (find_chunk-drop_self id i cs)
]

find_chunk-drop_other :
    (gone id : String) (i : ℕ) (cs : List Chunk)
    → (gone == id) ≡ false
    → find_chunk id i (drop_chunks gone cs) ≡ find_chunk id i cs
unfolding find_chunk drop_chunks
find_chunk-drop_other gone id i [] h = refl
find_chunk-drop_other gone id i (c ∷ cs) h = elim (Bool-cases (c.upload_id == gone)) [
  | inl e ↦
      let apart : (c.upload_id == id) ≡ false = ground (arith, eq_iff c.upload_id gone) in
      rw (e, apart) (find_chunk-drop_other gone id i cs h)
  | inr e ↦ ground (arith, find_chunk-drop_other gone id i cs h)
]

pub drop_chunks-IsLaidOut :
    (gone : String) (s : ArtifactStore)
    → IsLaidOut s
    → IsLaidOut (record s { chunks = drop_chunks gone s.chunks })
drop_chunks-IsLaidOut gone s h = record {
  sessions = h.sessions;
  chunks = λ id i content found. elim (Bool-cases (gone == id)) [
    | inl e ↦
        let found' : find_chunk id i (drop_chunks id s.chunks) ≡ some content =
          rw ((eq_iff gone id).0 e) at found in
        let clash : none ≡ some content = sym (find_chunk-drop_self id i s.chunks) ∙ found' in cc
    | inr other ↦
        h.chunks id i content (sym (find_chunk-drop_other gone id i s.chunks other) ∙ found)
  ];
}
