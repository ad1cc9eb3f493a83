-- ===== src/Clients.antt =====
-- The client record, as the schema package stores it (schema/api/clients.go).
pub mod Record
pub mod Merge
mod Tests
