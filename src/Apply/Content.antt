-- ===== src/Apply/Content.antt =====
-- src-tauri/crates/mhost-apply/src/writer/content.rs
pub mod Lines
pub mod Built
pub mod Verified
pub mod Applied
use m_host.Common.{
  Text, ℕ, Bool, not, ◌&&◌, Option, none, some, List, [], ◌∷◌, ◌++◌, if◌then◌else◌, codes, is_empty,
  and_then, ends_with_char, slice_to, slice_from,
}
use m_host.Core.Ip.{IpAddr}
use m_host.Core.Models.{ApplyPlan}
use m_host.Hosts.ManagedBlock.{extract_managed_block_bytes}
use m_host.Apply.Plan.{format_as_hosts}

-- The branch with a block: `none` is a panic of a slice.
unfoldable pub replace_block : Text → Text → ℕ × ℕ → Option Text
replace_block current managed_block (block_start, block_end) =
    and_then (slice_to block_start current) λ front.
      and_then (slice_from block_end current) λ back. some (front ++ (managed_block ++ back))

-- The branch without one.
unfoldable pub append_block : Text → Text → Text
append_block current managed_block =
    if not (ends_with_char b'\n' current) && not (is_empty current)
    then current ++ (codes "\n" ++ managed_block)
    else current ++ managed_block

unfoldable pub place_block : Text → Text → Option (ℕ × ℕ) → Option Text
place_block current managed_block (some place) = replace_block current managed_block place
place_block current managed_block none = some (append_block current managed_block)

module _ {A : Type 0} ⦃ip : IpAddr A⦄ where
  unfoldable pub build_hosts_content : Text → ApplyPlan A → Option Text
  build_hosts_content current plan =
      place_block current (format_as_hosts plan.rules) (extract_managed_block_bytes current)
