-- ===== src/Artifacts/Runs.antt =====
-- Any sequence of calls keeps the store addressed by content.
use a2a_superhub.Artifacts.Steps.{put_stream-Preserves}
use mathlib.Core.Option.{some-injective}
use a2a_superhub.Dict.{lookup}
use a2a_superhub.Auth.Bearer.{Principal}
use a2a_superhub.Artifacts.Checks.{
  validate_filename, validate_media_type, validate_visibility, validate_expected, validate_digest,
  is_artifact_id,
}
use a2a_superhub.Json.{Value}
use a2a_superhub.Artifacts.Sharing.{set_visibility, change_visibility, may_change, may_share}
use a2a_superhub.Artifacts.Addressed.{
  IsAddressed, store_artifact-IsAddressed, IsFiled, put_manifest-IsAddressed,
}
use a2a_superhub.Artifacts.Uploads.{
  initiate_upload, put_chunk, save_session, commit_upload, UploadRequest, cancel_upload,
  validate_size, store_chunk, get_upload, commit_chunks, commit_session, validate_chunk_size,
  is_pending, is_completed, chunk_index, put_request, gather, expected_size, same_digest,
  find_chunk,
}
use a2a_superhub.Artifacts.Content.{
  put_stream, PutRequest, get_manifest, read_manifest, check_manifest,
}
use a2a_superhub.Artifacts.Tables.{
  ArtifactEnv, Bytes, ArtifactStore, Session, artifact_conflict, Manifest, Chunk, UploadStatus,
  completed, canceled, pending, artifact_store, artifact_access,
}
use a2a_superhub.Prelude.{
  refl, none, some, [], ◌∷◌, List, String, ℕ, Option, ◌≡◌, length, Preserves, ℤ, Preserves-lift,
  Preserves-raise_if, not, ◌==◌, arith, ok, Preserves-bind, eq_iff, Bool-cases, eqb, inl, inr,
  Preserves-after, max, Preserves-check, ◌&&◌, ◌+◌,
}

-- one call, with what it takes from its surroundings
pub data ArtifactCall : Type 0 where
  puts_stream : ArtifactEnv → List (Option Bytes) → PutRequest → ArtifactCall
  initiates : ArtifactEnv → UploadRequest → ArtifactCall
  puts_chunk : ArtifactEnv → String → ℤ → Bytes → Option String → ArtifactCall
  commits : ArtifactEnv → String → ArtifactCall
  cancels : ArtifactEnv → String → ArtifactCall
  shares : ArtifactEnv → String → Value → Principal → ArtifactCall

-- the state after a call, whether it returns or raises; all calls use one digest
unfoldable pub perform : (Bytes → String) → ArtifactCall → ArtifactStore → ArtifactStore
unfolding put_stream initiate_upload put_chunk commit_upload cancel_upload set_visibility
perform digest (puts_stream env source request) s =
    (put_stream (record env { digest = digest }) source request s).1
perform digest (initiates env request) s =
    (initiate_upload (record env { digest = digest }) request s).1
perform digest (puts_chunk env id index content expected) s =
    (put_chunk (record env { digest = digest }) id index content expected s).1
perform digest (commits env id) s = (commit_upload (record env { digest = digest }) id s).1
perform digest (cancels env id) s = (cancel_upload (record env { digest = digest }) id s).1
perform digest (shares env id visibility p) s =
    (set_visibility (record env { digest = digest }) id visibility p s).1

unfoldable pub run : (Bytes → String) → List ArtifactCall → ArtifactStore → ArtifactStore
unfolding perform
run digest [] s = s
run digest (c ∷ cs) s = run digest cs (perform digest c s)

read_manifest-some :
    (id : String) (m : Manifest) (file : Option (Option Manifest))
    → read_manifest id file ≡ ok (some m)
    → (file ≡ some (some m)) × (m.artifact_id ≡ id)
unfolding read_manifest check_manifest
read_manifest-some id m none h = cc
read_manifest-some id m (some none) h = cc
read_manifest-some id m (some (some x)) h = ground (arith, eq_iff x.artifact_id id)

-- what `get_manifest` finds is in the file, under its identifier
pub get_manifest-some :
    (id : String) (m : Manifest) (s : ArtifactStore)
    → get_manifest id s ≡ ok (some m)
    → (lookup id s.manifests ≡ some (some m)) × (m.artifact_id ≡ id)
unfolding get_manifest
get_manifest-some id m s h = elim (Bool-cases (is_artifact_id id)) [
  | inl e ↦ read_manifest-some id m (lookup id s.manifests) (rw (get_manifest, e) at h)
  | inr e ↦ let h' : ok none ≡ ok (some m) = rw (get_manifest, e) at h in cc
]

module _ (env : ArtifactEnv) (limit : ℕ) where
  abbrev Sound : ArtifactStore → Type 0
  Sound = IsAddressed env.digest limit

  put_stream-Sound :
      (source : List (Option Bytes)) (request : PutRequest)
      → Preserves Sound (put_stream env source request)
  put_stream-Sound =
      put_stream-Preserves env limit Sound (λ s h. h.bounded)
        (λ created_by content m existing s small made _.
          store_artifact-IsAddressed env.digest limit created_by content m existing small made s)

  -- Sessions and chunk files are no part of the invariant.
  chunks-Sound : (cs : List Chunk) (s : ArtifactStore) → Sound s → Sound (record s { chunks = cs })
  chunks-Sound cs s h = record { bounded = h.bounded; blobs = h.blobs; manifests = h.manifests }

  save_session-Sound :
      (session : Session) (s : ArtifactStore) → Sound s → Sound (save_session session s)
  unfolding save_session
  save_session-Sound session s h = record {
    bounded = h.bounded;
    blobs = h.blobs;
    manifests = h.manifests;
  }

  initiate_upload-Sound : (request : UploadRequest) → Preserves Sound (initiate_upload env request)
  unfolding initiate_upload
  initiate_upload-Sound request s h =
      Preserves-lift Sound (validate_size s.max_artifact_bytes request.size_bytes) _
        (λ size _.
          Preserves-lift Sound (validate_chunk_size s.max_artifact_bytes request.chunk_size) _
            (λ chunk_size _.
              Preserves-lift Sound (validate_filename request.filename) _ (λ filename _.
                Preserves-lift Sound (validate_media_type request.media_type) _ (λ media_type _.
                  Preserves-lift Sound (validate_digest env request.sha256) _ (λ sha256 _.
                    Preserves-lift Sound (validate_visibility request.visibility) _
                      (λ visibility _ s h. save_session-Sound _ s h))))))
        s h

  store_chunk-Sound :
      (session : Session) (index : ℕ) (content : Bytes) (file : Option Bytes)
      → Preserves Sound (store_chunk env session index content file)
  unfolding store_chunk
  store_chunk-Sound session index content none s h =
      save_session-Sound (record session { updated_at = env.now }) _ (chunks-Sound _ s h)
  store_chunk-Sound session index content (some old) s h =
      Preserves-raise_if Sound (not (env.digest old == env.digest content)) artifact_conflict _
        (λ _ s h. h) s h

  put_chunk-Sound :
      (id : String) (index : ℤ) (content : Bytes) (expected : Option String)
      → Preserves Sound (put_chunk env id index content expected)
  unfolding put_chunk
  put_chunk-Sound id index content expected s h =
      Preserves-lift Sound (get_upload id s) _
        (λ session _.
          Preserves-raise_if Sound (not (is_pending session.status)) artifact_conflict _ (λ _.
            Preserves-lift Sound (chunk_index session.chunk_count index) _ (λ i _.
              Preserves-raise_if Sound (not (eqb (length content) (expected_size session i)))
                artifact_conflict _
                (λ _. Preserves-lift Sound (validate_expected env expected) _ (λ digest _.
                  Preserves-raise_if Sound (not (same_digest digest (env.digest content)))
                    artifact_conflict _
                    (λ _ s. store_chunk-Sound session i content (find_chunk id i s.chunks) s))))))
        s h

  commit_chunks-Sound :
      (session : Session) (gathered : Option (List (Option Bytes)))
      → Preserves Sound (commit_chunks env session gathered)
  unfolding commit_chunks
  commit_chunks-Sound session none s h = h
  commit_chunks-Sound session (some contents) s h =
      Preserves-bind Sound (put_stream env contents (put_request session)) _
        (put_stream-Sound contents (put_request session))
        (λ manifest s h. chunks-Sound _ _ (save_session-Sound _ s h)) s h

  commit_session-Sound :
      (session : Session) (status : UploadStatus)
      → Preserves Sound (commit_session env session status)
  unfolding commit_session
  commit_session-Sound session completed s h = h
  commit_session-Sound session canceled s h = h
  commit_session-Sound session pending s h =
      commit_chunks-Sound session (gather session.upload_id 0 session.chunk_count s.chunks) s h

  commit_upload-Sound : (id : String) → Preserves Sound (commit_upload env id)
  unfolding commit_upload
  commit_upload-Sound id s h =
      Preserves-lift Sound (get_upload id s) _
        (λ session _. commit_session-Sound session session.status) s h

  cancel_upload-Sound : (id : String) → Preserves Sound (cancel_upload env id)
  unfolding cancel_upload
  cancel_upload-Sound id s h =
      Preserves-lift Sound (get_upload id s) _
        (λ session _.
          Preserves-raise_if Sound (is_completed session.status) artifact_conflict _
            (λ _ s h. chunks-Sound _ _ (save_session-Sound _ s h)))
        s h

  change_visibility-Sound :
      (id visibility : String) (p : Principal) (manifest : Option Manifest) (s : ArtifactStore)
      → get_manifest id s ≡ ok manifest
      → Sound s
      → Sound (change_visibility env id visibility p manifest s).1
  unfolding change_visibility
  change_visibility-Sound id visibility p none s found h = h
  change_visibility-Sound id visibility p (some m) s found h =
      let file = (get_manifest-some id m s found).0 in
      let (m', same, filed) = h.manifests id (some m) file in
      let filed' : IsFiled env.digest limit s.blobs id m = rw (some-injective m m' same) filed in
      Preserves-check Sound (not (may_change m p)) artifact_access _ s h (λ _.
        Preserves-check Sound (not (visibility == "private") && not (may_share p)) artifact_access _
          s h
          (λ _.
            put_manifest-IsAddressed env.digest limit id
              (record m {
                visibility = visibility;
                policy_revision = m.policy_revision + 1;
                updated_at = some env.now;
              })
              s filed' h))

  set_visibility-Sound :
      (id : String) (visibility : Value) (p : Principal)
      → Preserves Sound (set_visibility env id visibility p)
  unfolding set_visibility
  set_visibility-Sound id visibility p s h =
      Preserves-lift Sound (validate_visibility visibility) _
        (λ text _ s h.
          Preserves-after Sound _ (get_manifest id s, s) h
            (λ manifest found. change_visibility-Sound id text p manifest s found h))
        s h

perform-IsAddressed :
    (digest : Bytes → String) (limit : ℕ) (c : ArtifactCall) (s : ArtifactStore)
    → IsAddressed digest limit s
    → IsAddressed digest limit (perform digest c s)
unfolding perform
perform-IsAddressed digest limit (puts_stream env source request) s h =
    put_stream-Sound (record env { digest = digest }) limit source request s h
perform-IsAddressed digest limit (initiates env request) s h =
    initiate_upload-Sound (record env { digest = digest }) limit request s h
perform-IsAddressed digest limit (puts_chunk env id index content expected) s h =
    put_chunk-Sound (record env { digest = digest }) limit id index content expected s h
perform-IsAddressed digest limit (commits env id) s h =
    commit_upload-Sound (record env { digest = digest }) limit id s h
perform-IsAddressed digest limit (cancels env id) s h =
    cancel_upload-Sound (record env { digest = digest }) limit id s h
perform-IsAddressed digest limit (shares env id visibility p) s h =
    set_visibility-Sound (record env { digest = digest }) limit id visibility p s h

IsAddressed-run :
    (digest : Bytes → String) (limit : ℕ) (calls : List ArtifactCall) (s : ArtifactStore)
    → IsAddressed digest limit s
    → IsAddressed digest limit (run digest calls s)
unfolding run
IsAddressed-run digest limit [] s h = h
IsAddressed-run digest limit (c ∷ cs) s h =
    IsAddressed-run digest limit cs (perform digest c s) (perform-IsAddressed digest limit c s h)

artifact_store-IsAddressed :
    (digest : Bytes → String) (limit : ℕ) → IsAddressed digest (max 1 limit) (artifact_store limit)
unfolding artifact_store lookup
artifact_store-IsAddressed digest limit = record {
  bounded = refl;
  blobs = λ key content e. cc;
  manifests = λ id file e. absurd (cc);
}

-- After any calls from the empty store, each of which may have raised: every blob has the digest
-- that it stands under and at most the limit of bytes; every manifest can be read, stands under the
-- identifier of its digest and has a blob; and its size is that of bytes with its digest.
pub run_artifacts-IsAddressed :
    (digest : Bytes → String) (limit : ℕ) (calls : List ArtifactCall)
    → IsAddressed digest (max 1 limit) (run digest calls (artifact_store limit))
run_artifacts-IsAddressed digest limit calls =
    IsAddressed-run digest (max 1 limit) calls (artifact_store limit)
      (artifact_store-IsAddressed digest limit)
