-- ===== src/Artifacts/Tests.antt =====
-- An upload at work: two chunks, the commit, and calls that come after it.
use a2a_superhub.Artifacts.Reads.{get_bytes-IsAddressed}
use a2a_superhub.Artifacts.Sharing.{set_visibility}
use a2a_superhub.Auth.Bearer.{Principal}
use a2a_superhub.Json.{str, null}
use a2a_superhub.Artifacts.Final.{completed_upload_is_final}
use a2a_superhub.Artifacts.Content.{get_manifest, get_bytes}
use a2a_superhub.Artifacts.Layout.{layout_size, layout_size-all}
use a2a_superhub.Artifacts.Checks.{policy_or_default}
use a2a_superhub.Dict.{lookup, put}
use a2a_superhub.Artifacts.Uploading.{IsFreshRun, IsFresh}
use a2a_superhub.Artifacts.Addressed.{IsAddressed}
use a2a_superhub.Artifacts.Uploads.{
  UploadRequest, chunk_count_of, commit_upload, get_upload, put_chunk, initiate_upload,
}
use a2a_superhub.Artifacts.Tables.{
  completed, Bytes, ArtifactEnv, ArtifactStore, Manifest, Session, artifact_store, pending,
  artifact_conflict, artifact_error,
}
use a2a_superhub.Prelude.{
  String, List, none, pos, ◌≡◌, ◌∷◌, if◌then◌else◌, some, ok, eqb, arith, length, [], refl, err,
  ◌≤◌,
}
use a2a_superhub.Artifacts.Runs.{
  run, perform, ArtifactCall, initiates, run_artifacts-IsAddressed, cancels, puts_chunk, commits,
  shares,
}
use Prim.Native.String.{String, ◌∷◌, []}

-- what a test by evaluation opens
program : Unit {0}
unfolding run perform artifact_store get_manifest put_chunk initiate_upload commit_upload
program = tt

abbrev zeros : String
zeros = "0000000000000000000000000000000000000000000000000000000000000000"

abbrev ones : String
ones = "1111111111111111111111111111111111111111111111111111111111111111"

-- a digest that tells apart whether the first byte is 7
abbrev digest_of : Bytes → String
digest_of [] = zeros
digest_of (b ∷ _) = if eqb b 7 then ones else zeros

abbrev env : ArtifactEnv
env = record {
  digest = digest_of;
  casefold = λ text. text;
  b64decode = λ text. none;
  now = "2026-01-01T00:00:00Z";
  new_upload_id = "upl_00000000000000000000000000000001";
}

abbrev upload_request : UploadRequest
upload_request = record {
  size_bytes = pos 3;
  sha256 = ones;
  chunk_size = pos 2;
  filename = str "a.txt";
  media_type = str "text/plain";
  created_by = "agent.alpha";
  visibility = str "private";
  policy = null;
}

abbrev upload_id : String
upload_id = "upl_00000000000000000000000000000001"

abbrev sent : List ArtifactCall
sent =
    initiates env upload_request
    ∷ puts_chunk env upload_id (pos 1) (9 ∷ []) none
    ∷ puts_chunk env upload_id (pos 0) (7 ∷ 8 ∷ []) none
    ∷ []

abbrev before_commit : ArtifactStore
before_commit = run digest_of sent (artifact_store 16)

abbrev manifest : Manifest
manifest = record {
  artifact_id = "art_11111111111111111111111111111111";
  sha256 = ones;
  size_bytes = 3;
  storage_uri = "hub-cas://sha256/1111111111111111111111111111111111111111111111111111111111111111";
  created_by = "agent.alpha";
  created_at = "2026-01-01T00:00:00Z";
  media_type = "text/plain";
  filename = "a.txt";
  visibility = "private";
  policy = policy_or_default null;
  policy_revision = 0;
  updated_at = none;
}

abbrev started : Session
started = record {
  upload_id = "upl_00000000000000000000000000000001";
  status = pending;
  size_bytes = 3;
  sha256 = ones;
  chunk_size = 2;
  chunk_count = 2;
  filename = some "a.txt";
  media_type = "text/plain";
  created_by = "agent.alpha";
  visibility = "private";
  policy = policy_or_default null;
  created_at = "2026-01-01T00:00:00Z";
  updated_at = "2026-01-01T00:00:00Z";
  artifact_id = none;
}

-- the last chunk takes one byte, and a second chunk at its index is refused
put_chunk-refusals :
    ((put_chunk env upload_id (pos 1) (9 ∷ 9 ∷ []) none before_commit).0 ≡ err artifact_conflict)
    × ((put_chunk env upload_id (pos 1) (7 ∷ []) none before_commit).0 ≡ err artifact_conflict)
    × ((put_chunk env upload_id (pos 2) (7 ∷ []) none before_commit).0 ≡ err artifact_error)
unfolding run perform artifact_store put_chunk initiate_upload
put_chunk-refusals = (refl, refl, refl)

get_upload-started : get_upload upload_id before_commit ≡ ok started
unfolding run perform artifact_store put_chunk initiate_upload get_upload
get_upload-started = refl

layout_size-all_example : layout_size started 0 2 ≡ 3
unfolding chunk_count_of
layout_size-all_example = layout_size-all started (omega arith, refl)

run_artifacts-IsAddressed_example :
    IsAddressed digest_of 16 (run digest_of sent (artifact_store 16))
run_artifacts-IsAddressed_example = run_artifacts-IsAddressed digest_of 16 sent

abbrev committed : ArtifactStore
committed = (commit_upload env upload_id before_commit).1

abbrev ended : Session
ended = record started {
  status = completed;
  artifact_id = some "art_11111111111111111111111111111111";
}

abbrev late : List ArtifactCall
late =
    cancels env upload_id
    ∷ puts_chunk env upload_id (pos 0) (7 ∷ 8 ∷ []) none
    ∷ commits env upload_id
    ∷ []

-- the session after the commit
lookup-committed : lookup upload_id committed.sessions ≡ some (some ended)
unfolding run perform artifact_store put_chunk initiate_upload commit_upload lookup
lookup-committed = refl

late-IsFreshRun : IsFreshRun digest_of late committed
unfolding IsFreshRun IsFresh
late-IsFreshRun = (tt, (tt, (tt, tt)))

completed_upload_is_final_example :
    lookup upload_id (run digest_of late committed).sessions ≡ some (some ended)
completed_upload_is_final_example =
    completed_upload_is_final digest_of ended late committed refl late-IsFreshRun lookup-committed

abbrev all_sent : List ArtifactCall
all_sent =
    initiates env upload_request
    ∷ puts_chunk env upload_id (pos 1) (9 ∷ []) none
    ∷ puts_chunk env upload_id (pos 0) (7 ∷ 8 ∷ []) none
    ∷ commits env upload_id
    ∷ []

abbrev stored : ArtifactStore
stored = run digest_of all_sent (artifact_store 16)

get_manifest-stored :
    get_manifest "art_11111111111111111111111111111111" stored ≡ ok (some manifest)
unfolding run perform artifact_store put_chunk initiate_upload commit_upload get_manifest
get_manifest-stored = refl

get_bytes-IsAddressed_example :
    (content : Bytes) × (get_bytes env "art_11111111111111111111111111111111" stored
      ≡ ok (some content))
    × (digest_of content ≡ manifest.sha256)
    × (length content ≤ 16)
get_bytes-IsAddressed_example =
    get_bytes-IsAddressed env 16 "art_11111111111111111111111111111111" manifest stored
      (run_artifacts-IsAddressed digest_of 16 all_sent) get_manifest-stored

abbrev owner : Principal
owner = record {
  subject = "agent.alpha";
  kind = "agent";
  token_id = "tok_1";
  scopes = "artifact.write" ∷ "artifact.share" ∷ [];
}

abbrev shared_manifest : Manifest
shared_manifest = record manifest {
  visibility = "shared";
  policy_revision = 1;
  updated_at = some "2026-01-01T00:00:00Z";
}

abbrev shared_store : ArtifactStore
shared_store = record stored {
  manifests = put "art_11111111111111111111111111111111" (some shared_manifest) stored.manifests;
}

set_visibility-stored :
    set_visibility env "art_11111111111111111111111111111111" (str "shared") owner stored
    ≡ (ok shared_manifest, shared_store)
unfolding run perform artifact_store put_chunk initiate_upload commit_upload set_visibility put
set_visibility-stored = refl

-- one who is not the owner asks, and then the owner
abbrev asked : List ArtifactCall
asked =
    shares env "art_11111111111111111111111111111111" (str "private")
      (record owner { subject = "agent.beta" })
    ∷ shares env "art_11111111111111111111111111111111" (str "shared") owner
    ∷ []

-- and the owner is heard
run-asked :
    get_manifest "art_11111111111111111111111111111111" (run digest_of asked stored)
    ≡ ok (some shared_manifest)
unfolding run perform artifact_store put_chunk initiate_upload commit_upload set_visibility
    get_manifest put
run-asked = refl
