-- ===== src/Storage.antt =====
-- src-tauri/crates/mhost-storage: profiles in files.
pub mod Files
pub mod Profiles
pub mod Saved
pub mod Kept
