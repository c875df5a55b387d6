-- ===== src/Core.antt =====
-- The crate mhost-core: the data model that the other crates share.
pub mod Ip
pub mod Errors
pub mod Models
pub mod AdBlock
pub mod OriginalDns
