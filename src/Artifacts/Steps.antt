-- ===== src/Artifacts/Steps.antt =====
-- What `put_stream` keeps, from what the step keeps that stores the bytes.
use a2a_superhub.Artifacts.Checks.{
  validate_filename, validate_media_type, validate_visibility, validate_expected,
}
use a2a_superhub.Artifacts.Tables.{
  Bytes, ArtifactEnv, Manifest, ArtifactStore, artifact_too_large, artifact_conflict,
  artifact_error,
}
use a2a_superhub.Artifacts.Content.{
  read_chunks, artifact_id_of, store_artifact, put_content, put_stream, new_manifest, PutRequest,
  matches, get_manifest,
}
use a2a_superhub.Prelude.{
  refl, none, some, [], ◌∷◌, ℕ, String, List, Option, ◌≡◌, length, ◌≤◌, ok, Preserves, Bool-cases,
  ltb, ◌++◌, inl, Preserves-raise_if, Preserves-lift, err, not, inr, arith, ◌==◌, Preserves-check,
  Preserves-after,
}

pub length-read_chunks :
    (limit : ℕ) (done : Bytes) (source : List (Option Bytes)) (content : Bytes)
    → length done ≤ limit
    → read_chunks limit done source ≡ ok content
    → length content ≤ limit
unfolding read_chunks
length-read_chunks limit done [] content h e = let same : done ≡ content = cc in rw (← same) h
length-read_chunks limit done (none ∷ rest) content h e = cc
length-read_chunks limit done (some chunk ∷ rest) content h e =
    elim (Bool-cases (ltb limit (length (done ++ chunk)))) [
      | inl over ↦ let e' : err artifact_too_large ≡ ok content = rw over at e in cc
      | inr fits ↦
          length-read_chunks limit (done ++ chunk) rest content (ground arith) (rw fits at e)
    ]

-- a manifest for some bytes
abbrev pub IsFor : (Bytes → String) → Bytes → Manifest → Type 0
IsFor digest content m =
    (m.artifact_id ≡ artifact_id_of (digest content))
    × (m.sha256 ≡ digest content)
    × (m.size_bytes ≡ length content)

module _ (env : ArtifactEnv) (limit : ℕ) (P : ArtifactStore → Type 0)
    (bounded : (s : ArtifactStore) → P s → s.max_artifact_bytes ≡ limit)
    (keep : (created_by : String) (content : Bytes) (m : Manifest) (existing : Option Manifest)
        (s : ArtifactStore)
      → length content ≤ limit
      → IsFor env.digest content m
      → get_manifest m.artifact_id s ≡ ok existing
      → P s
      → P (store_artifact (env.digest content) created_by content m existing s).1) where
  put_content-Preserves :
      (request : PutRequest) (filename : Option String) (media_type visibility : String)
      (expected : Option String) (content : Bytes)
      → length content ≤ limit
      → Preserves P (put_content env request filename media_type visibility expected content)
  unfolding put_content new_manifest
  put_content-Preserves request filename media_type visibility expected content small s h =
      Preserves-check P (not (matches expected (env.digest content))) artifact_conflict _ s h (λ _.
        Preserves-after P _ (get_manifest (artifact_id_of (env.digest content)) s, s) h
          (λ existing found.
            keep request.created_by content
              (new_manifest env request filename media_type visibility (env.digest content) content)
              existing s small (refl, refl, refl) found h))

  pub put_stream-Preserves :
      (source : List (Option Bytes)) (request : PutRequest)
      → Preserves P (put_stream env source request)
  unfolding put_stream
  put_stream-Preserves source request s h =
      Preserves-lift P (validate_filename request.filename) _
        (λ filename _. Preserves-lift P (validate_media_type request.media_type) _ (λ media_type _.
          Preserves-lift P (validate_visibility request.visibility) _ (λ visibility _.
            Preserves-lift P (validate_expected env request.expected_sha256) _ (λ expected _.
              Preserves-raise_if P (request.created_by == "") artifact_error _ (λ _.
                Preserves-lift P (read_chunks s.max_artifact_bytes [] source) _ (λ content read.
                  put_content-Preserves request filename media_type visibility expected content (
                    length-read_chunks limit [] source content (omega arith)
                      (rw (bounded s h) at read))))))))
        s h
