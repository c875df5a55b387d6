-- ===== src/Sources.antt =====
-- The ad-block sources: src-tauri/crates/mhost-storage/src/adblock.rs and
-- src-tauri/src/commands/adblock.rs.
pub mod Store
pub mod Whitelist
pub mod Blocklist
pub mod Fetch
pub mod Settings
pub mod Reload
pub mod Overlap
