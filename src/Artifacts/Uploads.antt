-- ===== src/Artifacts/Uploads.antt =====
-- Upload sessions: `initiate_upload`, `put_chunk`, `commit_upload`, `cancel_upload`, `get_upload`.
use a2a_superhub.Artifacts.Tables.{
  completed, canceled, Session, UploadStatus, ArtifactEnv, Bytes, Manifest, ArtifactStore,
  ArtifactExn, Chunk, artifact_conflict, artifact_missing, artifact_error, artifact_too_large,
  artifact_type_error, pending,
}
use a2a_superhub.Json.{Value, null, str}
use a2a_superhub.Artifacts.Content.{put_stream, get_manifest, PutRequest}
use a2a_superhub.Dict.{put, lookup}
use a2a_superhub.Artifacts.Checks.{
  is_upload_id, validate_filename, validate_expected, validate_media_type, validate_digest,
  validate_visibility, policy_or_default,
}
use a2a_superhub.Prelude.{
  none, some, [], ◌∷◌, ◌>>=◌, ◌>>◌, pure, lift, gets, raise, raise_if, modify, String, ℤ, ℕ, Option,
  Result, if◌then◌else◌, Exec, List, Bool, eqb, true, err, not, negsuc, ◌+◌, ◌==◌, false, suc,
  select, ok, ◌-◌, ◌&&◌, ◌++◌, length, zero, pos, ◌/◌, ◌*◌, ltb, leb, ◌||◌,
}

unfoldable pub check_session : String → Option Session → Result ArtifactExn Session
check_session id none = err artifact_conflict
check_session id (some session) =
    if not (session.upload_id == id) then err artifact_conflict else ok session

unfoldable pub session_file : String → Option (Option Session) → Result ArtifactExn Session
unfolding check_session
session_file id none = err artifact_missing
session_file id (some file) = check_session id file

-- `_read_session`
unfoldable pub get_upload : String → ArtifactStore → Result ArtifactExn Session
unfolding is_upload_id session_file lookup
get_upload id s =
    if not (is_upload_id id) then err artifact_error else session_file id (lookup id s.sessions)

-- the arguments of `initiate_upload`
pub record UploadRequest : Type 0 where
  pub size_bytes : ℤ
  pub sha256 : String
  pub chunk_size : ℤ
  pub filename : Value
  pub media_type : Value
  pub created_by : String
  pub visibility : Value
  pub policy : Value

-- a size from 0 to the limit
unfoldable pub validate_size : ℕ → ℤ → Result ArtifactExn ℕ
validate_size limit (negsuc n) = err artifact_too_large
validate_size limit (pos n) = if ltb limit n then err artifact_too_large else ok n

-- a chunk size from 1 to the limit
unfoldable pub validate_chunk_size : ℕ → ℤ → Result ArtifactExn ℕ
validate_chunk_size limit (negsuc n) = err artifact_error
validate_chunk_size limit (pos n) = if ltb n 1 || ltb limit n then err artifact_error else ok n

-- `math.ceil(size_bytes / chunk_size) if size_bytes else 0`, whose quotient of floats gives this
-- number for sizes below 2 ^ 53
unfoldable pub chunk_count_of : ℕ → ℕ → ℕ
chunk_count_of size chunk_size = if eqb size 0 then 0 else (size + (chunk_size - 1)) / chunk_size

-- `_atomic_json(self._session_path(upload_id), session)`
unfoldable pub save_session : Session → ArtifactStore → ArtifactStore
unfolding put
save_session session s = record s { sessions = put session.upload_id (some session) s.sessions }

unfoldable pub initiate_upload :
    ArtifactEnv → UploadRequest → Exec ArtifactExn ArtifactStore Session
unfolding validate_size validate_chunk_size chunk_count_of validate_filename validate_media_type
    validate_digest validate_visibility policy_or_default save_session
initiate_upload env request s =
    (do
      size ← lift (validate_size s.max_artifact_bytes request.size_bytes)
      chunk_size ← lift (validate_chunk_size s.max_artifact_bytes request.chunk_size)
      filename ← lift (validate_filename request.filename)
      media_type ← lift (validate_media_type request.media_type)
      sha256 ← lift (validate_digest env request.sha256)
      visibility ← lift (validate_visibility request.visibility)
      let session : Session = record {
        upload_id = env.new_upload_id;
        status = pending;
        size_bytes = size;
        sha256 = sha256;
        chunk_size = chunk_size;
        chunk_count = chunk_count_of size chunk_size;
        filename = filename;
        media_type = media_type;
        created_by = request.created_by;
        visibility = visibility;
        policy = policy_or_default request.policy;
        created_at = env.now;
        updated_at = env.now;
        artifact_id = none;
      }
      modify (save_session session)
      pure session)
      s

-- the file of a chunk
unfoldable pub find_chunk : String → ℕ → List Chunk → Option Bytes
find_chunk id index [] = none
find_chunk id index (c ∷ cs) =
    if c.upload_id == id && eqb c.index index then some c.content else find_chunk id index cs

-- the size that the session's layout gives to a chunk
unfoldable pub expected_size : Session → ℕ → ℕ
expected_size session index =
    if eqb (index + 1) session.chunk_count
    then session.size_bytes - index * session.chunk_size
    else session.chunk_size

unfoldable pub is_pending : UploadStatus → Bool
is_pending pending = true
is_pending _ = false

unfoldable pub chunk_index : ℕ → ℤ → Result ArtifactExn ℕ
chunk_index count (negsuc n) = err artifact_error
chunk_index count (pos n) = if leb count n then err artifact_error else ok n

-- the answer of `put_chunk`
pub record ChunkAnswer : Type 0 where
  pub index : ℕ
  pub sha256 : String
  pub duplicate : Bool

unfoldable pub same_digest : Option String → String → Bool
same_digest none actual = true
same_digest (some expected) actual = actual == expected

-- what `put_chunk` does with the file that is there
unfoldable pub store_chunk :
    ArtifactEnv → Session → ℕ → Bytes → Option Bytes → Exec ArtifactExn ArtifactStore ChunkAnswer
unfolding save_session
store_chunk env session index content (some old) = do
  raise_if (not (env.digest old == env.digest content)) artifact_conflict
  pure (record { index = index; sha256 = env.digest content; duplicate = true })
store_chunk env session index content none = do
  modify (λ s. record s {
    chunks =
        s.chunks ++ record { upload_id = session.upload_id; index = index; content = content } ∷ [];
  })
  modify (save_session (record session { updated_at = env.now }))
  pure (record { index = index; sha256 = env.digest content; duplicate = false })

unfoldable pub put_chunk :
    ArtifactEnv → String → ℤ → Bytes → Option String → Exec ArtifactExn ArtifactStore ChunkAnswer
unfolding get_upload is_pending chunk_index expected_size validate_expected same_digest find_chunk
    store_chunk
put_chunk env id index content expected_sha256 = do
  session ← (λ s. lift (get_upload id s) s)
  raise_if (not (is_pending session.status)) artifact_conflict
  i ← lift (chunk_index session.chunk_count index)
  raise_if (not (eqb (length content) (expected_size session i))) artifact_conflict
  expected ← lift (validate_expected env expected_sha256)
  raise_if (not (same_digest expected (env.digest content))) artifact_conflict
  file ← gets (λ s. find_chunk id i s.chunks)
  store_chunk env session i content file

unfoldable pub gather_more :
    Option Bytes → Option (List (Option Bytes)) → Option (List (Option Bytes))
gather_more (some content) (some rest) = some (some content ∷ rest)
gather_more _ _ = none

-- the chunks from `index` on, `count` of them, if none is missing
unfoldable pub gather : String → ℕ → ℕ → List Chunk → Option (List (Option Bytes))
unfolding find_chunk gather_more
gather id index zero chunks = some []
gather id index (suc count) chunks =
    gather_more (find_chunk id index chunks) (gather id (index + 1) count chunks)

unfoldable pub drop_chunks : String → List Chunk → List Chunk
drop_chunks id = select (λ c. not (c.upload_id == id))

unfoldable pub put_request : Session → PutRequest
put_request session = record {
  filename = elim session.filename [ none ↦ null | some name ↦ str name ];
  media_type = str session.media_type;
  created_by = session.created_by;
  visibility = str session.visibility;
  expected_sha256 = some session.sha256;
  policy = session.policy;
}

-- the commit of a pending session, on its chunks
unfoldable pub commit_chunks :
    ArtifactEnv
    → Session
    → Option (List (Option Bytes))
    → Exec ArtifactExn ArtifactStore (Manifest × Bool)
unfolding put_request put_stream save_session drop_chunks
commit_chunks env session none = raise artifact_conflict
commit_chunks env session (some chunks) = do
  manifest ← put_stream env chunks (put_request session)
  modify (
      save_session (record session {
        status = completed;
        artifact_id = some manifest.artifact_id;
        updated_at = env.now;
      }))
  modify (λ s. record s { chunks = drop_chunks session.upload_id s.chunks })
  pure (manifest, false)

unfoldable pub completed_manifest : Option Manifest → Result ArtifactExn (Manifest × Bool)
completed_manifest none = err artifact_conflict
completed_manifest (some m) = ok (m, true)

-- the answer for a session that is completed
unfoldable pub replay_commit : Option String → ArtifactStore → Result ArtifactExn (Manifest × Bool)
unfolding get_manifest completed_manifest
replay_commit none s = err artifact_type_error
replay_commit (some id) s = elim (get_manifest id s) [
  | err e ↦ err e
  | ok manifest ↦ completed_manifest manifest
]

unfoldable pub commit_session :
    ArtifactEnv → Session → UploadStatus → Exec ArtifactExn ArtifactStore (Manifest × Bool)
unfolding replay_commit gather commit_chunks
commit_session env session completed s = (replay_commit session.artifact_id s, s)
commit_session env session canceled s = (err artifact_conflict, s)
commit_session env session pending s =
    commit_chunks env session (gather session.upload_id 0 session.chunk_count s.chunks) s

-- `commit_upload`: the manifest, and whether the commit is replayed
unfoldable pub commit_upload :
    ArtifactEnv → String → Exec ArtifactExn ArtifactStore (Manifest × Bool)
unfolding get_upload commit_session
commit_upload env id = do
  session ← (λ s. lift (get_upload id s) s)
  commit_session env session session.status

unfoldable pub is_completed : UploadStatus → Bool
is_completed completed = true
is_completed _ = false

unfoldable pub cancel_upload : ArtifactEnv → String → Exec ArtifactExn ArtifactStore Session
unfolding get_upload is_completed save_session drop_chunks
cancel_upload env id = do
  session ← (λ s. lift (get_upload id s) s)
  raise_if (is_completed session.status) artifact_conflict
  let canceled_session : Session = record session { status = canceled; updated_at = env.now }
  modify (save_session canceled_session)
  modify (λ s. record s { chunks = drop_chunks id s.chunks })
  pure canceled_session
