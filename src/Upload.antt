-- ===== src/Upload.antt =====
-- web/src/lib/multipartUpload.ts: the resumable upload of a large file, in parts.
pub mod Plan
pub mod World
pub mod Session
pub mod Transfer
