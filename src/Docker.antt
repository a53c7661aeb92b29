-- ===== src/Docker.antt =====
-- The docker side: the daemon's records, its client and its service.
mod Types
pub mod Client
pub mod Service
pub use Types.*
