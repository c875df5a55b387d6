-- ===== src/Dns.antt =====
-- The crate mhost-dns: rules for the DNS proxy.
pub mod Labels
pub mod Trie
pub mod Resolver
pub mod AdBlock
pub mod Server
