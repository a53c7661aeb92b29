-- ===== src/Migrator.antt =====
-- migrator: the migration of a host's containers.
pub mod Disk
pub mod Quiet
pub mod Quota
pub mod Volumes
pub mod Sandboxes
pub mod Snapshot
pub mod Removal
pub mod Cold
pub mod Live
pub mod D2p
