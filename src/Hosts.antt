-- ===== src/Hosts.antt =====
-- The crate mhost-hosts: the hosts file format.
pub mod Validator
pub mod Formatter
pub mod Parser
pub mod Duplicates
pub mod Validate
pub mod ManagedBlock
