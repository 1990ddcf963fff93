-- ===== src/Client.antt =====
-- frontend/tenant-dashboard/lib/api/client.ts: the client of the ModeraShield API.
pub mod Types
pub mod Browser
pub mod Http
pub mod Api
pub mod Session
pub mod Address
pub mod Requests
pub mod Concurrent
pub mod Connection
pub mod Refines
