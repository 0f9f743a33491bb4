-- ===== src/Artifacts/Stored.antt =====
-- What `put_stream` has stored when it returns.
use a2a_superhub.Dict.Laws.{lookup-put}
use a2a_superhub.Dict.{put, lookup}
use a2a_superhub.Artifacts.Addressed.{store_blob-has}
use a2a_superhub.Artifacts.Runs.{get_manifest-some}
use a2a_superhub.Artifacts.Content.{
  store_blob, read_chunks, store_artifact, put_stream, matches, put_content, new_manifest,
  PutRequest, get_manifest, artifact_id_of,
}
use a2a_superhub.Text.{is_hex_of}
use a2a_superhub.Artifacts.Checks.{
  validate_digest, validate_expected, validate_filename, validate_media_type, validate_visibility,
}
use a2a_superhub.Artifacts.Tables.{
  Bytes, ArtifactStore, ArtifactEnv, Manifest, artifact_error, artifact_conflict,
}
use a2a_superhub.Prelude.{
  none, some, [], List, Option, ◌≡◌, ok, Bool-cases, inl, arith, err, inr, sym, ◌∙◌, String, ◌==◌,
  not, false, true, ◌⊎◌, Result-cases, eq_iff, ok-check, ok-lift, ap, refl,
}

-- the digest that was asked for
abbrev pub IsExpected : ArtifactEnv → Option String → String → Type 0
IsExpected env none digest = Unit {0}
IsExpected env (some text) digest = (text == "") ≡ false → digest ≡ env.casefold text

validate_digest-ok :
    (env : ArtifactEnv) (text digest : String)
    → validate_digest env text ≡ ok digest
    → digest ≡ env.casefold text
unfolding validate_digest
validate_digest-ok env text digest h = elim (Bool-cases (is_hex_of 64 (env.casefold text))) [
  | inl e ↦ let h' : ok (env.casefold text) ≡ ok digest = rw e at h in cc
  | inr e ↦ let h' : err artifact_error ≡ ok digest = rw e at h in cc
]

validate_expected-matches :
    (env : ArtifactEnv) (asked expected : Option String) (digest : String)
    → validate_expected env asked ≡ ok expected
    → matches expected digest ≡ true
    → IsExpected env asked digest
unfolding validate_expected matches
validate_expected-matches env none expected digest h m = tt
validate_expected-matches env (some text) none digest h m = λ filled.
    elim (Result-cases (validate_digest env text)) [
      | inl (e, bad) ↦ let h' : err e ≡ ok none = rw (filled, bad) at h in cc
      | inr (d, good) ↦ let h' : ok (some d) ≡ ok none = rw (filled, good) at h in cc
    ]
validate_expected-matches env (some text) (some d) digest h m = λ filled.
    elim (Result-cases (validate_digest env text)) [
      | inl (e, bad) ↦ let h' : err e ≡ ok (some d) = rw (filled, bad) at h in cc
      | inr (d', good) ↦
          let h' : ok (some d') ≡ ok (some d) = rw (filled, good) at h in
          let same : d' ≡ d = cc in
          (eq_iff digest d).0 m ∙ sym same ∙ validate_digest-ok env text d' good
    ]

not-==_false : (a b : String) → not (a == b) ≡ false → a ≡ b
not-==_false a b h = ground (arith, eq_iff a b)

-- the artifact is in the store: its manifest under its identifier, and under its digest the bytes, or
-- those that were there before
abbrev pub IsStored : Manifest → Bytes → ArtifactStore → ArtifactStore → Type 0
IsStored m content s s' =
    (lookup m.artifact_id s'.manifests ≡ some (some m))
    × ((stored : Bytes) × (lookup m.sha256 s'.blobs ≡ some stored)
        × ((stored ≡ content) ⊎ (lookup m.sha256 s.blobs ≡ some stored)))

-- the bytes under a digest
blob_stored :
    (digest : String) (content : Bytes) (blobs : List (String × Bytes))
    → (stored : Bytes) × (lookup digest (store_blob digest content blobs) ≡ some stored)
      × ((stored ≡ content) ⊎ (lookup digest blobs ≡ some stored))
blob_stored digest content blobs = elim (store_blob-has digest content blobs) [
  | inl e ↦ (content, e, inl refl)
  | inr (old, before, after) ↦ (old, after, inr before)
]

store_artifact-ok :
    (digest created_by : String) (content : Bytes) (new : Manifest) (existing : Option Manifest)
    (s : ArtifactStore) (m : Manifest) (s' : ArtifactStore)
    → new.sha256 ≡ digest
    → ((old : Manifest)
        → existing ≡ some old
        → lookup old.artifact_id s.manifests ≡ some (some old))
    → store_artifact digest created_by content new existing s ≡ (ok m, s')
    → (m.sha256 ≡ digest) × (s'.sessions ≡ s.sessions) × IsStored m content s s'
unfolding store_artifact
store_artifact-ok digest created_by content new none s m s' sha filed h =
    let same : new ≡ m = cc in
    let after : s' ≡ record s {
      blobs = store_blob digest content s.blobs;
      manifests = put new.artifact_id (some new) s.manifests;
    } =
      cc in
    rw (← same, after)
      (
        sha,
        refl,
        (
          lookup-put new.artifact_id (some new) s.manifests,
          rw sha (blob_stored digest content s.blobs),
        ),
      )
store_artifact-ok digest created_by content new (some old) s m s' sha filed h =
    let (is_sha, h1) = ok-check (not (old.sha256 == digest)) artifact_conflict _ s m s' h in
    let (_, h2) = ok-check (not (old.created_by == created_by)) artifact_conflict _ s m s' h1 in
    let same : old ≡ m = cc in
    let after : s' ≡ record s { blobs = store_blob digest content s.blobs } = cc in
    let old_sha = not-==_false old.sha256 digest is_sha in
    rw (← same, after)
      (old_sha, refl, (filed old refl, rw old_sha (blob_stored digest content s.blobs)))

-- what `put_stream` has done when it returns
pub put_stream-ok :
    (env : ArtifactEnv) (source : List (Option Bytes)) (request : PutRequest) (s : ArtifactStore)
    (m : Manifest) (s' : ArtifactStore)
    → put_stream env source request s ≡ (ok m, s')
    → (content : Bytes) × (read_chunks s.max_artifact_bytes [] source ≡ ok content)
      × (m.sha256 ≡ env.digest content)
      × IsExpected env request.expected_sha256 (env.digest content)
      × (s'.sessions ≡ s.sessions)
      × IsStored m content s s'
unfolding put_stream put_content new_manifest
put_stream-ok env source request s m s' h =
    let (filename, _, h1) = ok-lift (validate_filename request.filename) _ s m s' h in
    let (media, _, h2) = ok-lift (validate_media_type request.media_type) _ s m s' h1 in
    let (visibility, _, h3) = ok-lift (validate_visibility request.visibility) _ s m s' h2 in
    let (expected, asked, h4) =
      ok-lift (validate_expected env request.expected_sha256) _ s m s' h3 in
    let (_, h5) = ok-check (request.created_by == "") artifact_error _ s m s' h4 in
    let (content, read, h6) = ok-lift (read_chunks s.max_artifact_bytes [] source) _ s m s' h5 in
    let (matched, h7) =
      ok-check (not (matches expected (env.digest content))) artifact_conflict _ s m s' h6 in
    let (existing, found, h8) =
      ok-lift (get_manifest (artifact_id_of (env.digest content)) s) _ s m s' h7 in
    let stored =
      store_artifact-ok (env.digest content) request.created_by content
        (new_manifest env request filename media visibility (env.digest content) content) existing s
        m s' refl
        (λ old is_old.
          let (there, is_id) =
            get_manifest-some (artifact_id_of (env.digest content)) old s (found ∙ ap ok is_old) in
          ap (λ (key : String). lookup key s.manifests) is_id ∙ there)
        h8 in
    let (sha, sessions, kept) = stored in
    (
      content,
      read,
      sha,
      validate_expected-matches env request.expected_sha256 expected (env.digest content) asked
          (ground (arith, matched)),
      sessions,
      kept,
    )
