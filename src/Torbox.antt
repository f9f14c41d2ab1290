-- ===== src/Torbox.antt =====
-- internal/torbox: the client of the remote service.
pub mod Client
pub mod Json
pub mod Fields
pub mod Parse
pub mod Limiter
pub mod Service
pub mod Outcome
pub mod Tasks
pub mod Links
