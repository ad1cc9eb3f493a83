-- ===== src/ResultSets.antt =====
-- result_sets/simple: the rows of a result set, which the writer packs into documents of the index
-- and the reader takes out of them again.
pub mod Writer
pub mod Reader
pub mod Packets
pub mod Written
pub mod Reading
pub mod RoundTrip
pub mod Appends
pub mod Aborted
mod Tests
