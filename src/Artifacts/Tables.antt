-- ===== src/Artifacts/Tables.antt =====
-- The files of an `ArtifactStore`. A file with JSON that cannot be read is `none` under its name.
-- Bytes are numbers. Every call holds the lock where it writes, so it is one step.
use a2a_superhub.Json.{Value}
use a2a_superhub.Prelude.{[], List, String, ℕ, Option, max}

abbrev pub Bytes : Type 0
Bytes = List ℕ

-- `ArtifactError` and its subclasses, and what other exceptions a call lets through
pub data ArtifactExn : Type 0 where
  artifact_error artifact_too_large artifact_conflict artifact_access artifact_missing
        artifact_type_error :
      ArtifactExn

pub record Manifest : Type 0 where
  pub artifact_id : String
  pub sha256 : String
  pub size_bytes : ℕ
  pub storage_uri : String
  pub created_by : String
  pub created_at : String
  pub media_type : String
  pub filename : String
  pub visibility : String
  pub policy : Value
  pub policy_revision : ℕ
  pub updated_at : Option String

pub data UploadStatus : Type 0 where
  pending completed canceled : UploadStatus

-- an upload session
pub record Session : Type 0 where
  pub upload_id : String
  pub status : UploadStatus
  pub size_bytes : ℕ
  pub sha256 : String
  pub chunk_size : ℕ
  pub chunk_count : ℕ
  pub filename : Option String
  pub media_type : String
  pub created_by : String
  pub visibility : String
  pub policy : Value
  pub created_at : String
  pub updated_at : String
  pub artifact_id : Option String

-- the file of one chunk, in the directory of its upload
pub record Chunk : Type 0 where
  pub upload_id : String
  pub index : ℕ
  pub content : Bytes

pub record ArtifactStore : Type 0 where
  pub max_artifact_bytes : ℕ
  pub blobs : List (String × Bytes)
  pub manifests : List (String × Option Manifest)
  pub sessions : List (String × Option Session)
  pub chunks : List Chunk

-- `ArtifactStore(state_dir, max_artifact_bytes=…)`, on empty directories
unfoldable pub artifact_store : ℕ → ArtifactStore
artifact_store limit = record {
  max_artifact_bytes = max 1 limit;
  blobs = [];
  manifests = [];
  sessions = [];
  chunks = [];
}

-- what a call takes from its surroundings
pub record ArtifactEnv : Type 0 where
  -- the hexadecimal SHA-256 of bytes
  pub digest : Bytes → String
  pub casefold : String → String
  pub b64decode : String → Option Bytes
  pub now : String
  -- `new_id("upl")`
  pub new_upload_id : String
