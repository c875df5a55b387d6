-- ===== src/Apply.antt =====
-- The crate mhost-apply: from profiles to the system hosts file.
pub mod Merge
pub mod Conflict
pub mod Diff
pub mod Plan
pub mod Content
pub mod Verification
pub mod Writer
