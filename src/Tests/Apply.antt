-- ===== src/Tests/Apply.antt =====
-- Runs of the hosts format and of the apply path, and the theorems on them at these inputs.
use m_host.Common.{
  Text, true, none, some, [], ◌∷◌, codes, ◌≡◌, refl, inl, eqb, is_whitespace, trim, trim_end_by,
  split_inclusive, lines, strip_suffix, strip_line_end, len, char_len, and_then,
}
use m_host.Common.Result.{ok}
use m_host.Core.Models.{ResolvedRule, ApplyPlan}
use m_host.Hosts.ManagedBlock.{
  mark_of, note, close, scan_lines, scan_bytes, is_line_break, extract_managed_block,
  extract_managed_block_bytes,
}
use m_host.Hosts.ManagedBlock.Shape.{Block, extract_managed_block-Block}
use m_host.Apply.Content.{build_hosts_content}
use m_host.Apply.Content.Applied.{IsTidy, build-verify, build_idem}
use m_host.Apply.Content.Verified.{Writable}
use m_host.Apply.Verification.{verify}
use m_host.Tests.Addresses.{Address, local_address, test_addresses}

abbrev pub hosts_file : Text
hosts_file =
    codes
      "10.0.0.1 nas\n# ---- mHost start ----\r\n1.1.1.1 old\n# ---- mHost end ----\n::1 localhost"

abbrev rule : ResolvedRule Address
rule = record {
  ip = local_address;
  domain = codes "dev.test";
  source_profile_id = 1;
  source_profile_name = codes "dev";
}

abbrev pub plan : ApplyPlan Address
plan = record {
  rules = rule ∷ [];
  conflicts = [];
  diff = record { added = codes "127.0.0.1 dev.test" ∷ []; removed = []; unchanged = [] };
  backup_required = true;
}

found_lines : extract_managed_block hosts_file ≡ some (1, 3)
unfolding extract_managed_block scan_lines close note mark_of lines split_inclusive strip_line_end
    strip_suffix trim is_whitespace eqb
found_lines = refl

found_bytes : extract_managed_block_bytes hosts_file ≡ some (13, 72)
unfolding extract_managed_block_bytes scan_bytes close note mark_of split_inclusive trim trim_end_by
    is_line_break is_whitespace eqb len char_len
found_bytes = refl

pub hosts_file-IsTidy : IsTidy hosts_file
hosts_file-IsTidy = inl (1, 3, found_lines)

pub plan-Writable : Writable plan.rules
unfolding is_whitespace
plan-Writable = (record { not_empty = λ e. cc; no_space = refl }, tt)

extract_managed_block-Block_example : Block (split_inclusive hosts_file) 1 3
extract_managed_block-Block_example = (extract_managed_block-Block hosts_file 1 3).0 found_lines

build-verify_example :
    (written : Text) × (build_hosts_content hosts_file plan ≡ some written)
    × (verify written plan ≡ ok tt)
build-verify_example = build-verify hosts_file plan hosts_file-IsTidy (λ e. cc) plan-Writable

build_idem_example :
    and_then (build_hosts_content hosts_file plan) (λ written. build_hosts_content written plan)
    ≡ build_hosts_content hosts_file plan
build_idem_example = build_idem hosts_file plan hosts_file-IsTidy (λ e. cc) plan-Writable

-- Markers in the wrong order: the extractor by lines finds no block, the one by bytes an empty place
-- between the two lines.
abbrev stray : Text
stray = codes "# ---- mHost end ----\n# ---- mHost start ----\n"

stray_lines : extract_managed_block stray ≡ none
unfolding extract_managed_block scan_lines close note mark_of lines split_inclusive strip_line_end
    strip_suffix trim is_whitespace eqb
stray_lines = refl

stray_bytes : extract_managed_block_bytes stray ≡ some (22, 22)
unfolding extract_managed_block_bytes scan_bytes close note mark_of split_inclusive trim trim_end_by
    is_line_break is_whitespace eqb len char_len
stray_bytes = refl
