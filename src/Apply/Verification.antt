-- ===== src/Apply/Verification.antt =====
-- src-tauri/crates/mhost-apply/src/writer/verification.rs
use m_host.Common.{Text, Option, none, some, List, [], ◌∷◌, if◌then◌else◌, is_some, lines}
use m_host.Common.Result.{Result, ok, err}
use m_host.Common.Sort.{mem_text}
use m_host.Core.Errors.{VerifyError, unexpected_block, block_missing, rule_missing}
use m_host.Core.Ip.{IpAddr}
use m_host.Core.Models.{ResolvedRule, ApplyPlan}
use m_host.Hosts.ManagedBlock.{extract_managed_block, extract_managed_block_content}
use m_host.Apply.Diff.{mapping_line}

abbrev pub or_default : Option Text → Text
or_default none = []
or_default (some t) = t

module _ {A : Type 0} ⦃ip : IpAddr A⦄ where
  -- The loop over the rules of the plan.
  unfoldable pub check_rules : List Text → List (ResolvedRule A) → Result VerifyError Unit
  check_rules written [] = ok tt
  check_rules written (r ∷ rs) =
      let rest = check_rules written rs in
      if mem_text (mapping_line r.ip r.domain) written
      then rest
      else err (rule_missing (mapping_line r.ip r.domain))

  unfoldable pub verify_rules : Text → List (ResolvedRule A) → Result VerifyError Unit
  verify_rules written [] =
      if is_some (extract_managed_block written) then err unexpected_block else ok tt
  verify_rules written (r ∷ rs) =
      if is_some (extract_managed_block written)
      then check_rules (lines (or_default (extract_managed_block_content written))) (r ∷ rs)
      else err block_missing

  unfoldable pub verify : Text → ApplyPlan A → Result VerifyError Unit
  verify written plan = verify_rules written plan.rules
