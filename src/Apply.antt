-- ===== src/Apply.antt =====
-- scripts/fw_apply_direct.py: apply the OPNsense catalog through the API.
pub mod Normalize
pub mod Api
pub mod Section
pub mod Services
pub mod Catalog
pub mod Run
pub mod Scope
pub mod Frame
pub mod Report
pub mod Rows
pub mod Alarm
