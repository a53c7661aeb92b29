-- ===== src/Ctrd.antt =====
-- ctrd: the client of containerd and the processing of image names.
pub mod Types
pub mod Jose
pub mod Converter
pub mod Reference
pub mod Client
pub mod Process
pub mod Manifest
pub mod Proxy
