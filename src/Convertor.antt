-- ===== src/Convertor.antt =====
-- pouch/convertor: docker's records become pouch's.
pub mod SandboxName
pub mod Config
pub mod HostConfig
pub mod Network
pub mod Container
pub mod Sandbox
pub mod Volumes
