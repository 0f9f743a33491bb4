-- ===== src/Artifacts.antt =====
-- src/a2a_superhub/artifacts.py: the content-addressed store of artifacts and its resumable uploads.
-- `Tables` has the files of the store, `Checks` the validation of arguments, `Content` storing and
-- reading, `Uploads` the upload sessions, `Sharing` who can read or share.
pub mod Tables
pub mod Checks
pub mod Content
pub mod Uploads
pub mod Sharing
pub mod Layout
pub mod Sessions
pub mod Uploading
pub mod Stored
pub mod Filed
pub mod Visibility
pub mod Committed
pub mod Final
pub mod Steps
pub mod Addressed
pub mod Runs
pub mod Reads
mod Tests
