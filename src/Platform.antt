-- ===== src/Platform.antt =====
-- src-tauri/crates/mhost-dns/src/platform.rs: the pure parts of the layer that runs system commands.
pub mod Resolvers
pub mod Shell
pub mod Upstream
