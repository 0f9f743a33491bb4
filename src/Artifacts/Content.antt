-- ===== src/Artifacts/Content.antt =====
-- Storing bytes under their digest and reading them back: `put_stream`, `put_bytes`, `put_base64`,
-- `get_manifest`, `get_bytes`.
use a2a_superhub.Artifacts.Tables.{
  ArtifactEnv, Manifest, ArtifactStore, Bytes, ArtifactExn, artifact_conflict, artifact_error,
  artifact_too_large,
}
use a2a_superhub.Dict.{lookup, put}
use a2a_superhub.Json.{Value}
use a2a_superhub.Artifacts.Checks.{
  is_artifact_id, policy_or_default, validate_filename, validate_media_type, validate_visibility,
  validate_expected,
}
use a2a_superhub.Text.{first_chars, skip_chars}
use Prim.Native.String.{String}
use Prim.Native.String
use a2a_superhub.Prelude.{
  none, some, [], ◌∷◌, ◌>>=◌, ◌>>◌, pure, lift, raise_if, modify, ℕ, Option, String, Bool, Exec,
  Result, List, length, true, err, ok, if◌then◌else◌, not, ◌==◌, ◌||◌, ◌++◌, ltb,
}

unfoldable pub check_manifest : String → Option Manifest → Result ArtifactExn (Option Manifest)
unfolding first_chars skip_chars
check_manifest id none = err artifact_conflict
check_manifest id (some m) =
    if not (m.artifact_id == id) || not (first_chars 32 m.sha256 == skip_chars 4 id)
    then err artifact_conflict
    else ok (some m)

unfoldable pub read_manifest :
    String → Option (Option Manifest) → Result ArtifactExn (Option Manifest)
unfolding check_manifest
read_manifest id none = ok none
read_manifest id (some file) = check_manifest id file

unfoldable pub get_manifest : String → ArtifactStore → Result ArtifactExn (Option Manifest)
unfolding is_artifact_id read_manifest lookup
get_manifest id s =
    if not (is_artifact_id id) then ok none else read_manifest id (lookup id s.manifests)

-- the keyword arguments of `put_stream`
pub record PutRequest : Type 0 where
  pub filename : Value
  pub media_type : Value
  pub created_by : String
  pub visibility : Value
  pub expected_sha256 : Option String
  pub policy : Value

-- The loop over the chunks, after the bytes that were read before; `none` is a chunk of another type.
unfoldable pub read_chunks : ℕ → Bytes → List (Option Bytes) → Result ArtifactExn Bytes
read_chunks limit done [] = ok done
read_chunks limit done (none ∷ rest) = err artifact_error
read_chunks limit done (some chunk ∷ rest) =
    let rest' = read_chunks limit (done ++ chunk) rest in
    if ltb limit (length (done ++ chunk)) then err artifact_too_large else rest'

unfoldable pub artifact_id_of : String → String
unfolding first_chars
artifact_id_of digest = String.◌++◌ "art_" (first_chars 32 digest)

-- `if not blob_path.exists(): os.replace(temp_path, blob_path)`
unfoldable pub store_blob : String → Bytes → List (String × Bytes) → List (String × Bytes)
unfolding lookup put
store_blob digest content blobs = elim (lookup digest blobs) [
  | none ↦ put digest content blobs
  | some _ ↦ blobs
]

-- the manifest of an artifact that is new
unfoldable pub new_manifest :
    ArtifactEnv → PutRequest → Option String → String → String → String → Bytes → Manifest
unfolding artifact_id_of policy_or_default
new_manifest env request filename media_type visibility digest content = record {
  artifact_id = artifact_id_of digest;
  sha256 = digest;
  size_bytes = length content;
  storage_uri = String.◌++◌ "hub-cas://sha256/" digest;
  created_by = request.created_by;
  created_at = env.now;
  media_type = media_type;
  filename = elim filename [ none ↦ artifact_id_of digest | some name ↦ name ];
  visibility = visibility;
  policy = policy_or_default request.policy;
  policy_revision = 0;
  updated_at = none;
}

-- the part of `put_stream` under the lock, on the manifest that is there
unfoldable pub store_artifact :
    String → String → Bytes → Manifest → Option Manifest → Exec ArtifactExn ArtifactStore Manifest
unfolding store_blob put
store_artifact digest created_by content manifest none = do
  modify (λ s. record s { blobs = store_blob digest content s.blobs })
  modify (λ s. record s { manifests = put manifest.artifact_id (some manifest) s.manifests })
  pure manifest
store_artifact digest created_by content manifest (some existing) = do
  raise_if (not (existing.sha256 == digest)) artifact_conflict
  raise_if (not (existing.created_by == created_by)) artifact_conflict
  modify (λ s. record s { blobs = store_blob digest content s.blobs })
  pure existing

unfoldable pub matches : Option String → String → Bool
matches none actual = true
matches (some expected) actual = actual == expected

-- the rest of `put_stream`, when the bytes have been read
unfoldable pub put_content :
    ArtifactEnv
    → PutRequest
    → Option String
    → String
    → String
    → Option String
    → Bytes
    → Exec ArtifactExn ArtifactStore Manifest
unfolding matches get_manifest artifact_id_of new_manifest store_artifact
put_content env request filename media_type visibility expected content s =
    let digest = env.digest content in
    let manifest = new_manifest env request filename media_type visibility digest content in
    (do
      raise_if (not (matches expected digest)) artifact_conflict
      existing ← lift (get_manifest (artifact_id_of digest) s)
      store_artifact digest request.created_by content manifest existing)
      s

unfoldable pub put_stream :
    ArtifactEnv → List (Option Bytes) → PutRequest → Exec ArtifactExn ArtifactStore Manifest
unfolding validate_filename validate_media_type validate_visibility validate_expected read_chunks
    put_content
put_stream env source request s =
    (do
      filename ← lift (validate_filename request.filename)
      media_type ← lift (validate_media_type request.media_type)
      visibility ← lift (validate_visibility request.visibility)
      expected ← lift (validate_expected env request.expected_sha256)
      raise_if (request.created_by == "") artifact_error
      content ← lift (read_chunks s.max_artifact_bytes [] source)
      put_content env request filename media_type visibility expected content)
      s

unfoldable pub put_bytes :
    ArtifactEnv → Bytes → PutRequest → Exec ArtifactExn ArtifactStore Manifest
unfolding put_stream
put_bytes env content request = put_stream env (some content ∷ []) request

unfoldable pub put_base64 :
    ArtifactEnv → String → PutRequest → Exec ArtifactExn ArtifactStore Manifest
unfolding put_bytes
put_base64 env text request s = elim (env.b64decode text) [
  | none ↦ (err artifact_error, s)
  | some content ↦ put_bytes env content request s
]

unfoldable pub read_blob : ArtifactEnv → String → Option Bytes → Result ArtifactExn (Option Bytes)
read_blob env digest none = ok none
read_blob env digest (some content) =
    if not (env.digest content == digest) then err artifact_conflict else ok (some content)

unfoldable pub bytes_of :
    ArtifactEnv → Option Manifest → ArtifactStore → Result ArtifactExn (Option Bytes)
unfolding read_blob lookup
bytes_of env none s = ok none
bytes_of env (some m) s = read_blob env m.sha256 (lookup m.sha256 s.blobs)

unfoldable pub get_bytes : ArtifactEnv → String → ArtifactStore → Result ArtifactExn (Option Bytes)
unfolding get_manifest bytes_of
get_bytes env id s = elim (get_manifest id s) [
  | err e ↦ err e
  | ok manifest ↦ bytes_of env manifest s
]
