-- ===== src/Artifacts/Reads.antt =====
-- The bytes that are stored can be read: `get_bytes`.
use mathlib.Core.Option.{some-injective}
use a2a_superhub.Dict.{lookup}
use a2a_superhub.Artifacts.Runs.{get_manifest-some}
use a2a_superhub.Artifacts.Addressed.{IsAddressed}
use a2a_superhub.Prelude.{String, ℕ, ◌≡◌, ok, some, length, true, ◌≤◌, ◌∙◌, ap, ◌==◌, eq_iff, refl}
use Prim.Native.String.{String}
use a2a_superhub.Artifacts.Tables.{ArtifactEnv, Manifest, ArtifactStore, Bytes}
use a2a_superhub.Artifacts.Content.{get_bytes, bytes_of, read_blob, get_manifest}

-- Bytes whose manifest is found are read whole: in a store that is addressed by content,
-- `get_bytes` on an identifier with a manifest gives bytes, never a missing file or a mismatch, with
-- the digest of the manifest and within the limit.
pub get_bytes-IsAddressed :
    (env : ArtifactEnv) (limit : ℕ) (id : String) (m : Manifest) (s : ArtifactStore)
    → IsAddressed env.digest limit s
    → get_manifest id s ≡ ok (some m)
    → (content : Bytes) × (get_bytes env id s ≡ ok (some content))
      × (env.digest content ≡ m.sha256)
      × (length content ≤ limit)
unfolding get_bytes bytes_of read_blob
get_bytes-IsAddressed env limit id m s h found =
    let (there, _) = get_manifest-some id m s found in
    let (x, is_x, filed) = h.manifests id (some m) there in
    let (_, _, (content, stored), _) = filed in
    let same : m ≡ x = some-injective m x is_x in
    let stored' : lookup m.sha256 s.blobs ≡ some content =
      ap (λ (k : Manifest). lookup k.sha256 s.blobs) same ∙ stored in
    let (digested, small) = h.blobs m.sha256 content stored' in
    let agrees : (env.digest content == m.sha256) ≡ true =
      (eq_iff (env.digest content) m.sha256).1 digested in
    (content, rw (get_bytes, bytes_of, read_blob, found, stored', agrees) refl, digested, small)
