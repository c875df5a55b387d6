-- ===== src/Sources/Blocklist.antt =====
-- src-tauri/src/commands/adblock.rs: the two parsers of a blocklist, and the text of the cache.
pub mod Cached
use m_host.Common.{
  Text, ℕ, suc, ◌+◌, Bool, true, false, ◌&&◌, Option, none, some, List, [], ◌∷◌, ◌++◌, map, ◌≡◌,
  if◌then◌else◌, ltb, leb, is_empty, length, split_by, split_char, trim, lines, codes, join_lines,
}
use Prim.Native.Nat.{◌/◌}
use m_host.Common.Result.{Result, ok, err}
use m_host.Core.Ip.{IpAddr}
use m_host.Core.Models.{Uuid, HostRule}
use m_host.Hosts.Parser.{ParseResult, parse}
use m_host.Sources.Whitelist.{Lowercase, EntryError, validate_whitelist_domain}

pub record BlocklistParse : Type 0 where
  pub domains : List Text
  pub error_count : ℕ

abbrev pub parse_error_warn_min : ℕ
parse_error_warn_min = 10

abbrev pub parse_error_warn_ratio_den : ℕ
parse_error_warn_ratio_den = 20

-- What the warning says: the lines dropped and the rules kept.
pub data Warning : Type 0 where
  dropped : ℕ → ℕ → Warning

unfoldable pub parse_error_warning : BlocklistParse → Option Warning
parse_error_warning p =
    if leb parse_error_warn_min p.error_count
      && ltb (length p.domains / parse_error_warn_ratio_den) p.error_count
    then some (dropped p.error_count (length p.domains))
    else none

-- The text that `write_cache` gets: a line `0.0.0.0 d` for each domain, no line break at the end.
abbrev pub cache_line : Text → Text
cache_line d = codes "0.0.0.0 " ++ d

unfoldable pub canon : List Text → Text
unfolding join_lines
canon domains = join_lines (map cache_line domains)

-- `line.split('#').next().unwrap_or("")`
abbrev before_hash : List Text → Text
before_hash [] = []
before_hash (p ∷ ps) = p

module _ ⦃lower : Lowercase⦄ where
  abbrev pub count_candidate : Bool → Result EntryError Text → BlocklistParse → BlocklistParse
  count_candidate true r p = p
  count_candidate false (ok d) p = record p { domains = d ∷ p.domains }
  count_candidate false (err e) p = record p { error_count = p.error_count + 1 }

  abbrev pub candidate_of : Text → Text
  candidate_of line = trim (before_hash (split_char b'#' line))

  -- The loop over the lines, with what it adds.
  unfoldable pub parse_domain_lines : List Text → BlocklistParse
  unfolding validate_whitelist_domain split_by trim
  parse_domain_lines [] = record { domains = []; error_count = 0 }
  parse_domain_lines (l ∷ ls) =
      let candidate = candidate_of l in
      count_candidate (is_empty candidate) (validate_whitelist_domain candidate)
        (parse_domain_lines ls)

  unfoldable pub parse_domains_blocklist : Text → BlocklistParse
  unfolding parse_domain_lines lines
  parse_domains_blocklist content = parse_domain_lines (lines content)

  module _ {A : Type 0} where
    -- The loop over the rules.
    unfoldable pub rule_domains : List (HostRule A) → List Text
    rule_domains [] = []
    rule_domains (r ∷ rs) =
        let rest = rule_domains rs in
        if r.enabled then map lower.to_lowercase r.domains ++ rest else rest

  module _ (A : Type 0) ⦃ip : IpAddr A⦄ where
    unfoldable pub parse_blocklist_domains : (ℕ → Uuid) → Text → BlocklistParse
    unfolding parse rule_domains
    parse_blocklist_domains uuids content =
        let result : ParseResult A = parse uuids content in
        record { domains = rule_domains result.rules; error_count = length result.errors }
