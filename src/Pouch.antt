-- ===== src/Pouch.antt =====
-- The pouch side: the daemon's records.
mod Types
mod Stores
pub mod Service
pub use Types.*
pub use Stores.*
