-- ===== src/Ota.antt =====
-- Updates of the firmware.
pub mod Manifest
pub mod Url
pub mod Reply
pub mod Policy
pub mod Updater
pub mod Staging
pub mod EndToEnd
