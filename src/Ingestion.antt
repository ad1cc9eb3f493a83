-- ===== src/Ingestion.antt =====
-- ingestion: what the server does with the messages of the clients.
pub mod Types
pub mod Hunts
pub mod Clients
pub mod Uploads
pub mod Vfs
pub mod Collections
pub mod Process
pub mod Authority
pub mod Flows
pub mod UploadKeys
pub mod TestEnv
mod Tests
