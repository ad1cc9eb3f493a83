-- ===== src/Elastic.antt =====
-- services/elasticsearch.go and services/retry.go: how the server asks the index, and what it makes
-- of an answer.
pub mod Types
pub mod Writes
pub mod Reads
pub mod Paging
mod Retries
mod Pages
mod Tests
