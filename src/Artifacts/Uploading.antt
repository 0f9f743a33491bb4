-- ===== src/Artifacts/Uploading.antt =====
-- Any sequence of calls keeps the layout of the uploads.
use a2a_superhub.Artifacts.Tables.{
  canceled, ArtifactStore, ArtifactEnv, Bytes, Session, Manifest, artifact_conflict, artifact_store,
  UploadStatus, artifact_access, completed, pending,
}
use a2a_superhub.Json.{Value}
use a2a_superhub.Auth.Bearer.{Principal}
use a2a_superhub.Artifacts.Runs.{
  ArtifactCall, perform, run, initiates, puts_stream, puts_chunk, commits, cancels, shares,
}
use a2a_superhub.Artifacts.Sharing.{change_visibility, set_visibility, may_change, may_share}
use mathlib.Core.Option.{some-injective}
use a2a_superhub.Artifacts.Checks.{
  validate_filename, validate_media_type, validate_digest, validate_visibility, validate_expected,
}
use a2a_superhub.Artifacts.Steps.{put_stream-Preserves}
use a2a_superhub.Dict.{lookup}
use a2a_superhub.Artifacts.Sessions.{
  IsLaidOut, new_session-IsLaidOut, get_upload-ok, save_session-IsLaidOut, find_chunk-append,
  drop_chunks-IsLaidOut,
}
use a2a_superhub.Artifacts.Uploads.{
  validate_chunk_size, chunk_index, initiate_upload, store_chunk, put_chunk, UploadRequest,
  validate_size, get_upload, expected_size, is_pending, same_digest, find_chunk, commit_chunks,
  commit_session, commit_upload, cancel_upload, put_request, is_completed, gather,
}
use a2a_superhub.Artifacts.Content.{store_artifact, PutRequest, put_stream, get_manifest}
use a2a_superhub.Prelude.{
  refl, none, some, [], ◌∷◌, ◌≡◌, String, List, ℕ, Option, ℤ, ok, Preserves-after, Preserves, ◌<◌,
  Preserves-raise_if, negsuc, length, Preserves-check, not, pos, ◌==◌, arith, eqb, ap, ◌∙◌, inl,
  inr, ◌&&◌,
}

-- `put_stream` writes no session and no chunk file
abbrev SameUploads : ArtifactStore → ArtifactStore → Type 0
SameUploads s s' =
    (s'.max_artifact_bytes ≡ s.max_artifact_bytes)
    × (s'.sessions ≡ s.sessions)
    × (s'.chunks ≡ s.chunks)

store_artifact-SameUploads :
    (s0 : ArtifactStore) (digest created_by : String) (content : Bytes) (m : Manifest)
    (existing : Option Manifest)
    → Preserves (SameUploads s0) (store_artifact digest created_by content m existing)
unfolding store_artifact
store_artifact-SameUploads s0 digest created_by content m none s h = h
store_artifact-SameUploads s0 digest created_by content m (some existing) s h =
    Preserves-raise_if (SameUploads s0) (not (existing.sha256 == digest)) artifact_conflict _
      (λ _.
        Preserves-raise_if (SameUploads s0) (not (existing.created_by == created_by))
          artifact_conflict _ (λ _ s h. h))
      s h

pub put_stream-SameUploads :
    (env : ArtifactEnv) (source : List (Option Bytes)) (request : PutRequest) (s : ArtifactStore)
    → SameUploads s (put_stream env source request s).1
put_stream-SameUploads env source request s =
    put_stream-Preserves env s.max_artifact_bytes (SameUploads s) (λ s' h. h.0)
      (λ created_by content m existing s' _ _ _.
        store_artifact-SameUploads s (env.digest content) created_by content m existing s')
      source request s (refl, refl, refl)

IsLaidOut-SameUploads : (s s' : ArtifactStore) → SameUploads s s' → IsLaidOut s → IsLaidOut s'
IsLaidOut-SameUploads s s' (_, sessions, chunks) h = record {
  sessions = λ id file e. h.sessions id file (rw sessions at e);
  chunks = λ id i content e.
      let (x, at_x, bound, fits) = h.chunks id i content (rw chunks at e) in
      (x, rw sessions at_x, bound, fits);
}

validate_chunk_size-pos :
    (limit : ℕ) (n : ℤ) (size : ℕ) → validate_chunk_size limit n ≡ ok size → 0 < size
unfolding validate_chunk_size
validate_chunk_size-pos limit (negsuc n) size h = cc
validate_chunk_size-pos limit (pos n) size h = ground arith

chunk_index-lt : (count : ℕ) (n : ℤ) (i : ℕ) → chunk_index count n ≡ ok i → i < count
unfolding chunk_index
chunk_index-lt count (negsuc n) i h = cc
chunk_index-lt count (pos n) i h = ground arith

pub get_upload-there :
    (id : String) (x : Session) (s : ArtifactStore)
    → get_upload id s ≡ ok x
    → lookup x.upload_id s.sessions ≡ some (some x)
get_upload-there id x s found =
    let (there, is_id) = get_upload-ok id x s found in
    ap (λ (k : String). lookup k s.sessions) is_id ∙ there

module _ (env : ArtifactEnv) where
  initiate_upload-IsLaidOut :
      (request : UploadRequest) (s : ArtifactStore)
      → lookup env.new_upload_id s.sessions ≡ none
      → IsLaidOut s
      → IsLaidOut (initiate_upload env request s).1
  unfolding initiate_upload
  initiate_upload-IsLaidOut request s fresh h =
      let L = IsLaidOut in
      Preserves-after L _ (validate_size s.max_artifact_bytes request.size_bytes, s) h
        (λ size _.
          Preserves-after L _ (validate_chunk_size s.max_artifact_bytes request.chunk_size, s) h
            (λ chunk valid.
              Preserves-after L _ (validate_filename request.filename, s) h
                (λ filename _.
                  Preserves-after L _ (validate_media_type request.media_type, s) h
                    (λ media_type _.
                      Preserves-after L _ (validate_digest env request.sha256, s) h
                        (λ sha256 _.
                          Preserves-after L _ (validate_visibility request.visibility, s) h
                            (λ visibility _.
                              new_session-IsLaidOut _ s fresh
                                (
                                  validate_chunk_size-pos s.max_artifact_bytes request.chunk_size
                                      chunk valid,
                                  refl,
                                )
                                h))))))

  store_chunk-IsLaidOut :
      (x : Session) (i : ℕ) (content : Bytes) (file : Option Bytes) (s : ArtifactStore)
      → lookup x.upload_id s.sessions ≡ some (some x)
      → i < x.chunk_count
      → length content ≡ expected_size x i
      → IsLaidOut s
      → IsLaidOut (store_chunk env x i content file s).1
  unfolding store_chunk
  store_chunk-IsLaidOut x i content (some old) s there bound fits h =
      Preserves-check IsLaidOut (not (env.digest old == env.digest content)) artifact_conflict _ s h
        (λ _. h)
  store_chunk-IsLaidOut x i content none s there bound fits h =
      let (z, z_is, _, layout) = h.sessions x.upload_id (some x) there in
      let same : x ≡ z = some-injective x z z_is in
      save_session-IsLaidOut (record x { updated_at = env.now }) x _ there (refl, refl, refl)
        (rw same layout)
        (record {
          sessions = h.sessions;
          chunks = λ id j found e.
              elim (find_chunk-append id j s.chunks
                (record { upload_id = x.upload_id; index = i; content = content }) found e) [
                  | inl old ↦ h.chunks id j found old
                  | inr (k, index, bytes) ↦
                      (x, rw (← k) there, rw (← index) bound, rw (← bytes, ← index) fits)
                ];
        })

  put_chunk-IsLaidOut :
      (id : String) (index : ℤ) (content : Bytes) (expected : Option String) (s : ArtifactStore)
      → IsLaidOut s
      → IsLaidOut (put_chunk env id index content expected s).1
  unfolding put_chunk
  put_chunk-IsLaidOut id index content expected s h =
      let L = IsLaidOut in
      Preserves-after L _ (get_upload id s, s) h
        (λ x found. Preserves-check L (not (is_pending x.status)) artifact_conflict _ s h (λ _.
          Preserves-after L _ (chunk_index x.chunk_count index, s) h
            (λ i valid.
              Preserves-check L (not (eqb (length content) (expected_size x i))) artifact_conflict _
                s h
                (λ sized.
                  Preserves-after L _ (validate_expected env expected, s) h
                    (λ digest _.
                      Preserves-check L (not (same_digest digest (env.digest content)))
                        artifact_conflict _ s h
                        (λ _.
                          store_chunk-IsLaidOut x i content (find_chunk id i s.chunks) s
                            (get_upload-there id x s found)
                            (chunk_index-lt x.chunk_count index i valid) (ground (arith, sized))
                            h))))))

  commit_chunks-IsLaidOut :
      (x : Session) (gathered : Option (List (Option Bytes))) (s : ArtifactStore)
      → lookup x.upload_id s.sessions ≡ some (some x)
      → IsLaidOut s
      → IsLaidOut (commit_chunks env x gathered s).1
  unfolding commit_chunks
  commit_chunks-IsLaidOut x none s there h = h
  commit_chunks-IsLaidOut x (some contents) s there h =
      let request = put_request x in
      let s1 = (put_stream env contents request s).1 in
      let (limits, sessions, chunks) = put_stream-SameUploads env contents request s in
      let h1 = IsLaidOut-SameUploads s s1 (limits, sessions, chunks) h in
      let (z, z_is, _, layout) = h.sessions x.upload_id (some x) there in
      let same : x ≡ z = some-injective x z z_is in
      Preserves-after IsLaidOut _ (put_stream env contents request s) h1 (λ m _.
        drop_chunks-IsLaidOut x.upload_id _ (
          save_session-IsLaidOut
            (record x {
              status = completed;
              artifact_id = some m.artifact_id;
              updated_at = env.now;
            })
            x s1 (rw sessions there) (refl, refl, refl) (rw same layout) h1))

  commit_session-IsLaidOut :
      (x : Session) (status : UploadStatus) (s : ArtifactStore)
      → lookup x.upload_id s.sessions ≡ some (some x)
      → IsLaidOut s
      → IsLaidOut (commit_session env x status s).1
  unfolding commit_session
  commit_session-IsLaidOut x completed s there h = h
  commit_session-IsLaidOut x canceled s there h = h
  commit_session-IsLaidOut x pending s there h =
      commit_chunks-IsLaidOut x (gather x.upload_id 0 x.chunk_count s.chunks) s there h

  commit_upload-IsLaidOut :
      (id : String) (s : ArtifactStore) → IsLaidOut s → IsLaidOut (commit_upload env id s).1
  unfolding commit_upload
  commit_upload-IsLaidOut id s h =
      Preserves-after IsLaidOut _ (get_upload id s, s) h
        (λ x found. commit_session-IsLaidOut x x.status s (get_upload-there id x s found) h)

  cancel_upload-IsLaidOut :
      (id : String) (s : ArtifactStore) → IsLaidOut s → IsLaidOut (cancel_upload env id s).1
  unfolding cancel_upload
  cancel_upload-IsLaidOut id s h =
      Preserves-after IsLaidOut _ (get_upload id s, s) h
        (λ x found. Preserves-check IsLaidOut (is_completed x.status) artifact_conflict _ s h (λ _.
          let there = get_upload-there id x s found in
          let (z, z_is, _, layout) = h.sessions x.upload_id (some x) there in
          let same : x ≡ z = some-injective x z z_is in
          drop_chunks-IsLaidOut id _ (
            save_session-IsLaidOut (record x { status = canceled; updated_at = env.now }) x s there
              (refl, refl, refl) (rw same layout) h)))

  change_visibility-IsLaidOut :
      (id visibility : String) (p : Principal) (manifest : Option Manifest)
      → Preserves IsLaidOut (change_visibility env id visibility p manifest)
  unfolding change_visibility
  change_visibility-IsLaidOut id visibility p none s h = h
  change_visibility-IsLaidOut id visibility p (some m) s h =
      Preserves-check IsLaidOut (not (may_change m p)) artifact_access _ s h (λ _.
        Preserves-check IsLaidOut (not (visibility == "private") && not (may_share p))
          artifact_access _ s h (λ _. record { sessions = h.sessions; chunks = h.chunks }))

  set_visibility-IsLaidOut :
      (id : String) (visibility : Value) (p : Principal)
      → Preserves IsLaidOut (set_visibility env id visibility p)
  unfolding set_visibility
  set_visibility-IsLaidOut id visibility p s h =
      Preserves-after IsLaidOut _ (validate_visibility visibility, s) h
        (λ text _.
          Preserves-after IsLaidOut _ (get_manifest id s, s) h
            (λ manifest _. change_visibility-IsLaidOut id text p manifest s h))

-- an initiation takes an identifier that no session has; `new_id` makes it of a random UUID
unfoldable pub IsFresh : ArtifactCall → ArtifactStore → Type 0
IsFresh (initiates env request) s = lookup env.new_upload_id s.sessions ≡ none
IsFresh _ s = Unit {0}

unfoldable pub IsFreshRun : (Bytes → String) → List ArtifactCall → ArtifactStore → Type 0
unfolding IsFresh
IsFreshRun digest [] s = Unit {0}
IsFreshRun digest (c ∷ cs) s = IsFresh c s × IsFreshRun digest cs (perform digest c s)

perform-IsLaidOut :
    (digest : Bytes → String) (c : ArtifactCall) (s : ArtifactStore)
    → IsFresh c s
    → IsLaidOut s
    → IsLaidOut (perform digest c s)
unfolding perform IsFresh
perform-IsLaidOut digest (puts_stream env source request) s _ h =
    IsLaidOut-SameUploads s _
      (put_stream-SameUploads (record env { digest = digest }) source request s) h
perform-IsLaidOut digest (initiates env request) s fresh h =
    initiate_upload-IsLaidOut (record env { digest = digest }) request s fresh h
perform-IsLaidOut digest (puts_chunk env id index content expected) s _ h =
    put_chunk-IsLaidOut (record env { digest = digest }) id index content expected s h
perform-IsLaidOut digest (commits env id) s _ h =
    commit_upload-IsLaidOut (record env { digest = digest }) id s h
perform-IsLaidOut digest (cancels env id) s _ h =
    cancel_upload-IsLaidOut (record env { digest = digest }) id s h
perform-IsLaidOut digest (shares env id visibility p) s _ h =
    set_visibility-IsLaidOut (record env { digest = digest }) id visibility p s h

pub IsLaidOut-run :
    (digest : Bytes → String) (calls : List ArtifactCall) (s : ArtifactStore)
    → IsFreshRun digest calls s
    → IsLaidOut s
    → IsLaidOut (run digest calls s)
unfolding run IsFreshRun
IsLaidOut-run digest [] s _ h = h
IsLaidOut-run digest (c ∷ cs) s (fresh, rest) h =
    IsLaidOut-run digest cs (perform digest c s) rest (perform-IsLaidOut digest c s fresh h)

pub artifact_store-IsLaidOut : (limit : ℕ) → IsLaidOut (artifact_store limit)
unfolding artifact_store lookup find_chunk
artifact_store-IsLaidOut limit = record {
  sessions = λ id file e. absurd (cc);
  chunks = λ id i content e. absurd (cc);
}
