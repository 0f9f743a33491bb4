-- ===== src/Artifacts/Committed.antt =====
-- What a committed upload stores.
use a2a_superhub.Artifacts.Tables.{Session, ArtifactStore, ArtifactEnv, Manifest, completed}
use a2a_superhub.Artifacts.Uploads.{drop_chunks, save_session}
use a2a_superhub.Prelude.{some, Option}

-- the state after the manifest has been stored
finish : ArtifactEnv → Session → Manifest → ArtifactStore → ArtifactStore
unfolding drop_chunks
finish env x m s =
    let saved =
      save_session
        (record x { status = completed; artifact_id = some m.artifact_id; updated_at = env.now })
        s in
    record saved { chunks = drop_chunks x.upload_id saved.chunks }
