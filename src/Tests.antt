-- ===== src/Tests.antt =====
-- Runs on concrete input, and the theorems applied there.
mod Everything
mod Samples
mod Cold
mod Removal
mod Utils
mod Texts
mod Convert
mod Phases
mod Start
mod Labels
mod Proxy
mod Images
mod Pulls
mod Service
