-- ===== src/Boot.antt =====
-- bootloader/main.c and src/ota_apply.c: the resident bootloader and the firmware update.
pub mod Flash
pub mod Copy
pub mod Loader
pub mod Staging
pub mod Update
pub mod Slot1
pub mod Package
pub mod Reading
pub mod Install
mod Tests
