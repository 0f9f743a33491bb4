-- ===== src/Artifacts/Filed.antt =====
-- The calls that leave the manifest of an artifact as it is: all but `set_visibility`.
use a2a_superhub.Artifacts.Steps.{put_stream-Preserves}
use a2a_superhub.Artifacts.Uploads.{
  save_session, initiate_upload, store_chunk, put_chunk, commit_chunks, commit_session,
  commit_upload, cancel_upload, UploadRequest, gather, validate_size, get_upload, put_request,
  validate_chunk_size, is_pending, is_completed, chunk_index, expected_size, same_digest,
  find_chunk, drop_chunks,
}
use a2a_superhub.Dict.Laws.{lookup-put_other, lookup-put}
use a2a_superhub.Dict.{lookup, put}
use a2a_superhub.Artifacts.Content.{
  get_manifest, store_artifact, read_manifest, check_manifest, PutRequest, put_stream,
}
use a2a_superhub.Artifacts.Checks.{
  is_artifact_id, validate_filename, validate_media_type, validate_digest, validate_visibility,
  validate_expected,
}
use a2a_superhub.Artifacts.Runs.{get_manifest-some}
use a2a_superhub.Artifacts.Tables.{
  Manifest, ArtifactStore, Bytes, artifact_conflict, Chunk, ArtifactEnv, Session, UploadStatus,
  completed, canceled, pending,
}
use a2a_superhub.Prelude.{
  String, List, ◌≡◌, not, ◌==◌, some, Option, Bool-cases, ok, inl, inr, eq_iff, refl, arith, ap,
  ◌∙◌, sym, Preserves-check, none, Preserves, ℕ, ℤ, Preserves-lift, Preserves-raise_if,
  Preserves-bind, eqb, length,
}

-- Manifests are read one by one.
pub get_manifest-lookup :
    (id : String) (s s' : ArtifactStore)
    → lookup id s'.manifests ≡ lookup id s.manifests
    → get_manifest id s' ≡ get_manifest id s
unfolding get_manifest
get_manifest-lookup id s s' same = rw (get_manifest, same) refl

-- A found manifest that is changed is found, if its identifier and its digest are the same.
pub get_manifest-put :
    (id : String) (old m : Manifest) (s : ArtifactStore)
    → m.artifact_id ≡ old.artifact_id
    → m.sha256 ≡ old.sha256
    → get_manifest id s ≡ ok (some old)
    → get_manifest id (record s { manifests = put id (some m) s.manifests }) ≡ ok (some m)
unfolding get_manifest read_manifest check_manifest
get_manifest-put id old m s same sha h = elim (Bool-cases (is_artifact_id id)) [
  | inr e ↦ let h' : ok none ≡ ok (some old) = rw e at h in absurd (cc)
  | inl e ↦
      let there = (get_manifest-some id old s h).0 in
      rw (e, lookup-put id (some m) s.manifests, same, sha) (ground (arith, h, there))
]

store_artifact-bounded :
    (digest created_by : String) (content : Bytes) (m : Manifest) (existing : Option Manifest)
    (s : ArtifactStore)
    → (store_artifact digest created_by content m existing s).1.max_artifact_bytes
      ≡ s.max_artifact_bytes
unfolding store_artifact
store_artifact-bounded digest created_by content m none s = refl
store_artifact-bounded digest created_by content m (some existing) s =
    let Bound : ArtifactStore → Type 0 = λ s'. s'.max_artifact_bytes ≡ s.max_artifact_bytes in
    Preserves-check Bound (not (existing.sha256 == digest)) artifact_conflict _ s refl (λ _.
      Preserves-check Bound (not (existing.created_by == created_by)) artifact_conflict _ s refl
        (λ _. refl))

module _ (id : String) (old : Manifest) where
  abbrev pub Files : ArtifactStore → Type 0
  Files s = get_manifest id s ≡ ok (some old)

  -- bytes that are stored write a manifest where there is none
  store_artifact-Files :
      (digest created_by : String) (content : Bytes) (m : Manifest) (existing : Option Manifest)
      (s : ArtifactStore)
      → get_manifest m.artifact_id s ≡ ok existing
      → Files s
      → Files (store_artifact digest created_by content m existing s).1
  unfolding store_artifact
  store_artifact-Files digest created_by content m none s found h =
      elim (Bool-cases (m.artifact_id == id)) [
        | inl e ↦
            let found' : get_manifest id s ≡ ok none =
              ap (λ (key : String). get_manifest key s) (sym ((eq_iff m.artifact_id id).0 e))
              ∙ found in
            let clash : ok (some old) ≡ ok none = sym h ∙ found' in absurd (cc)
        | inr other ↦
            get_manifest-lookup id s _
              (lookup-put_other id m.artifact_id (some m) s.manifests other)
            ∙ h
      ]
  store_artifact-Files digest created_by content m (some existing) s found h =
      Preserves-check Files (not (existing.sha256 == digest)) artifact_conflict _ s h (λ _.
        Preserves-check Files (not (existing.created_by == created_by)) artifact_conflict _ s h
          (λ _. get_manifest-lookup id s _ refl ∙ h))

  -- the same manifests
  Files-same : (s s' : ArtifactStore) → s'.manifests ≡ s.manifests → Files s → Files s'
  Files-same s s' same h = get_manifest-lookup id s s' (ap (lookup id) same) ∙ h

  save_session-Files :
      (session : Session) (s : ArtifactStore) → Files s → Files (save_session session s)
  unfolding save_session
  save_session-Files session s h = Files-same s (save_session session s) refl h

  chunks-Files : (cs : List Chunk) (s : ArtifactStore) → Files s → Files (record s { chunks = cs })
  chunks-Files cs s h = Files-same s (record s { chunks = cs }) refl h

  module _ (env : ArtifactEnv) where
    pub put_stream-Files :
        (source : List (Option Bytes)) (request : PutRequest)
        → Preserves Files (put_stream env source request)
    put_stream-Files source request s h =
        (put_stream-Preserves env s.max_artifact_bytes
          (λ s'. (s'.max_artifact_bytes ≡ s.max_artifact_bytes) × Files s') (λ s' k. k.0)
          (λ created_by content m existing s' small made found (bound, k). (
            store_artifact-bounded (env.digest content) created_by content m existing s' ∙ bound,
            store_artifact-Files (env.digest content) created_by content m existing s' found k,
          ))
          source request s (refl, h)).1

    pub initiate_upload-Files :
        (request : UploadRequest) → Preserves Files (initiate_upload env request)
    unfolding initiate_upload
    initiate_upload-Files request s h =
        Preserves-lift Files (validate_size s.max_artifact_bytes request.size_bytes) _
          (λ size _.
            Preserves-lift Files (validate_chunk_size s.max_artifact_bytes request.chunk_size) _
              (λ chunk_size _.
                Preserves-lift Files (validate_filename request.filename) _ (λ filename _.
                  Preserves-lift Files (validate_media_type request.media_type) _ (λ media_type _.
                    Preserves-lift Files (validate_digest env request.sha256) _ (λ sha256 _.
                      Preserves-lift Files (validate_visibility request.visibility) _
                        (λ visibility _ s h. save_session-Files _ s h))))))
          s h

    store_chunk-Files :
        (session : Session) (index : ℕ) (content : Bytes) (file : Option Bytes)
        → Preserves Files (store_chunk env session index content file)
    unfolding store_chunk
    store_chunk-Files session index content none s h =
        save_session-Files (record session { updated_at = env.now }) _ (chunks-Files _ s h)
    store_chunk-Files session index content (some there) s h =
        Preserves-raise_if Files (not (env.digest there == env.digest content)) artifact_conflict _
          (λ _ s h. h) s h

    pub put_chunk-Files :
        (upload : String) (index : ℤ) (content : Bytes) (expected : Option String)
        → Preserves Files (put_chunk env upload index content expected)
    unfolding put_chunk
    put_chunk-Files upload index content expected s h =
        Preserves-lift Files (get_upload upload s) _
          (λ session _.
            Preserves-raise_if Files (not (is_pending session.status)) artifact_conflict _ (λ _.
              Preserves-lift Files (chunk_index session.chunk_count index) _ (λ i _.
                Preserves-raise_if Files (not (eqb (length content) (expected_size session i)))
                  artifact_conflict _
                  (λ _. Preserves-lift Files (validate_expected env expected) _ (λ digest _.
                    Preserves-raise_if Files (not (same_digest digest (env.digest content)))
                      artifact_conflict _
                      (λ _ s.
                        store_chunk-Files session i content (find_chunk upload i s.chunks) s))))))
          s h

    commit_chunks-Files :
        (session : Session) (gathered : Option (List (Option Bytes)))
        → Preserves Files (commit_chunks env session gathered)
    unfolding commit_chunks
    commit_chunks-Files session none s h = h
    commit_chunks-Files session (some contents) s h =
        Preserves-bind Files (put_stream env contents (put_request session)) _
          (put_stream-Files contents (put_request session))
          (λ manifest s h.
            let done : Session = record session {
              status = completed;
              updated_at = env.now;
              artifact_id = some manifest.artifact_id;
            } in
            let s1 : ArtifactStore = save_session done s in
            chunks-Files (drop_chunks session.upload_id s1.chunks) s1 (save_session-Files done s h))
          s h

    commit_session-Files :
        (session : Session) (status : UploadStatus)
        → Preserves Files (commit_session env session status)
    unfolding commit_session
    commit_session-Files session completed s h = h
    commit_session-Files session canceled s h = h
    commit_session-Files session pending s h =
        commit_chunks-Files session (gather session.upload_id 0 session.chunk_count s.chunks) s h

    pub commit_upload-Files : (upload : String) → Preserves Files (commit_upload env upload)
    unfolding commit_upload
    commit_upload-Files upload s h =
        Preserves-lift Files (get_upload upload s) _
          (λ session _. commit_session-Files session session.status) s h

    pub cancel_upload-Files : (upload : String) → Preserves Files (cancel_upload env upload)
    unfolding cancel_upload
    cancel_upload-Files upload s h =
        Preserves-lift Files (get_upload upload s) _
          (λ session _.
            Preserves-raise_if Files (is_completed session.status) artifact_conflict _
              (λ _ s h. chunks-Files _ _ (save_session-Files _ s h)))
          s h
