-- ===== src/Uploads.antt =====
-- vql/uploads: how a client sends a file to the server in parts, over HTTP.
pub mod Api
pub mod Buffer
pub mod Uploader
pub mod Sparse
mod Tests
