-- ===== src/FileStore.antt =====
-- filestore: files in S3.
pub mod Writer
pub mod Written
mod Tests
