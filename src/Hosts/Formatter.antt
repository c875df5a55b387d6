-- ===== src/Hosts/Formatter.antt =====
-- src-tauri/crates/mhost-hosts/src/formatter.rs
use m_host.Common.{Text, Option, none, some, List, [], ◌∷◌, ◌++◌, codes}
use m_host.Core.Ip.{IpAddr}
use m_host.Core.Models.{HostRule}

comment_line : Option Text → Text
comment_line none = []
comment_line (some c) = c ++ codes "\n"

module _ {A : Type 0} ⦃ip : IpAddr A⦄ where
  -- One line of a rule, with the line break of `writeln!`.
  unfoldable pub domain_line : A → Option Text → Text → Text
  domain_line a (some c) domain =
      ip.display a ++ (codes " " ++ (domain ++ (codes " # " ++ (c ++ codes "\n"))))
  domain_line a none domain = ip.display a ++ (codes " " ++ (domain ++ codes "\n"))

  domain_lines : A → Option Text → List Text → Text
  domain_lines a comment [] = []
  domain_lines a comment (d ∷ ds) = domain_line a comment d ++ domain_lines a comment ds

  -- What one rule appends to the output.
  unfoldable pub format_rule : HostRule A → Text
  unfolding domain_line domain_lines comment_line
  format_rule rule = elim rule.ip [
    | none ↦ comment_line rule.comment
    | some a ↦ domain_lines a rule.comment rule.domains
  ]

  unfoldable pub format_rules : List (HostRule A) → Text
  unfolding format_rule
  format_rules [] = []
  format_rules (rule ∷ rules) = format_rule rule ++ format_rules rules

  unfoldable pub format_managed_block : List (HostRule A) → Text
  unfolding format_rules
  format_managed_block [] = []
  format_managed_block (rule ∷ rules) =
      codes "# ---- mHost start ----\n"
      ++ (format_rules (rule ∷ rules) ++ codes "# ---- mHost end ----\n")
