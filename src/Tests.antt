-- ===== src/Tests.antt =====
-- Runs of the definitions at concrete inputs, and the theorems at these inputs.
pub mod Addresses
pub mod Apply
pub mod Dns
pub mod Profiles
pub mod Writer
pub mod Commands
pub mod Merge
pub mod Reload
pub mod Servers
pub mod Sources
pub mod Platform
pub mod ProfileIo
pub mod Overlap
pub mod Snapshots
