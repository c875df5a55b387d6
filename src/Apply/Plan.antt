-- ===== src/Apply/Plan.antt =====
-- `generate_plan` and `format_as_hosts` of src-tauri/crates/mhost-apply/src/lib.rs
use m_host.Common.{Text, ℕ, not, ◌||◌, Option, some, List, [], ◌∷◌, ◌++◌, codes, is_empty, and_then}
use m_host.Core.Ip.{IpAddr}
use m_host.Core.Models.{Uuid, Profile, ResolvedRule, HostsDiff, ApplyPlan}
use m_host.Apply.Merge.{merge}
use m_host.Apply.Diff.{calculate_diff, target_buf}

module _ {A : Type 0} ⦃ip : IpAddr A⦄ where
  plan_of : List (Profile A) → HostsDiff → ApplyPlan A
  plan_of profiles diff = record {
    rules = (merge profiles).rules;
    conflicts = (merge profiles).conflicts;
    diff = diff;
    backup_required = not (is_empty diff.added) || not (is_empty diff.removed);
  }

  -- `none` is a panic; the program returns no error here.
  unfoldable pub generate_plan : (ℕ → Uuid) → List (Profile A) → Text → Option (ApplyPlan A)
  unfolding plan_of
  generate_plan uuids profiles current_hosts =
      and_then (calculate_diff uuids current_hosts (merge profiles).rules)
        (λ diff. some (plan_of profiles diff))

  unfoldable pub format_as_hosts : List (ResolvedRule A) → Text
  format_as_hosts [] = []
  format_as_hosts (r ∷ rs) =
      codes "# ---- mHost start ----\n" ++ (target_buf (r ∷ rs) ++ codes "# ---- mHost end ----\n")
