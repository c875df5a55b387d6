-- ===== src/Apply/Diff.antt =====
-- src-tauri/crates/mhost-apply/src/diff.rs
use m_host.Common.{
  Text, ℕ, suc, ◌+◌, ◌-◌, not, Option, none, some, List, [], ◌∷◌, ◌++◌, ◌==◌, ltb, if◌then◌else◌,
  filter, codes, split_inclusive, lines, len, slice_to, slice_from, map,
}
use m_host.Common.Sort.{text_set, mem_text}
use m_host.Core.Ip.{IpAddr}
use m_host.Core.Models.{Uuid, HostRule, ResolvedRule, HostsDiff}
use m_host.Hosts.ManagedBlock.{extract_managed_block}
use m_host.Hosts.Parser.{parse}

-- `BTreeSet::difference` and `BTreeSet::intersection`
unfoldable pub difference : List Text → List Text → List Text
difference a b = filter (λ t. not (mem_text t b)) a

unfoldable pub intersection : List Text → List Text → List Text
intersection a b = filter (λ t. mem_text t b) a

-- The walk over `split_inclusive('\n')` in `extract_existing_lines`: at line `i` and byte `pos`.
unfoldable pub interior_from : ℕ → ℕ → ℕ → ℕ → Option ℕ → List Text → Option (ℕ × ℕ)
interior_from start end i pos begin [] = none
interior_from start end i pos begin (l ∷ ls) =
    let begin' : Option ℕ = if i == start + 1 then some pos else begin in
    let rest = interior_from start end (suc i) (pos + len l) begin' ls in
    if i == end - 1 then (elim begin' [ none ↦ none | some b ↦ some (b, pos + len l) ]) else rest

-- `&s[b..e]`; `none` is a panic
slice_range : Text → Option (ℕ × ℕ) → Option Text
slice_range s none = some []
slice_range s (some (b, e)) = elim (slice_to e s) [ none ↦ none | some t ↦ slice_from b t ]

content_of : Text → Option (ℕ × ℕ) → Option Text
unfolding interior_from slice_range
content_of s none = some []
content_of s (some (start, end)) =
    if ltb (start + 1) end
    then slice_range s (interior_from start end 0 0 none (split_inclusive s))
    else some []

-- `content_to_parse`
unfoldable pub content_to_parse : Text → Option Text
unfolding content_of extract_managed_block
content_to_parse s = content_of s (extract_managed_block s)

comment_lines : Option Text → List Text
comment_lines none = []
comment_lines (some c) = c ∷ []

module _ {A : Type 0} ⦃ip : IpAddr A⦄ where
  -- `format!("{} {}", ip, domain)`
  unfoldable pub mapping_line : A → Text → Text
  mapping_line a d = ip.display a ++ (codes " " ++ d)

  -- The loop of `writeln!` over the rules, which `target_buf` and `format_as_hosts` share.
  unfoldable pub target_buf : List (ResolvedRule A) → Text
  unfolding mapping_line
  target_buf [] = []
  target_buf (r ∷ rs) = mapping_line r.ip r.domain ++ (codes "\n" ++ target_buf rs)

  -- Parsed rules as lines again, one to a domain.
  unfoldable pub rule_lines : List (HostRule A) → List Text
  unfolding mapping_line comment_lines
  rule_lines [] = []
  rule_lines (r ∷ rs) =
      elim r.ip [ some a ↦ map (mapping_line a) r.domains | none ↦ comment_lines r.comment ]
      ++ rule_lines rs

  unfoldable pub diff_of : List Text → List (ResolvedRule A) → HostsDiff
  unfolding target_buf difference intersection text_set lines
  diff_of existing rules =
      let target_set = text_set (lines (target_buf rules)) in
      let existing_set = text_set existing in
      record {
        added = difference target_set existing_set;
        removed = difference existing_set target_set;
        unchanged = intersection existing_set target_set;
      }

module _ (A : Type 0) ⦃ip : IpAddr A⦄ where
  -- `none` is a panic of the slicing.
  unfoldable pub extract_existing_lines : (ℕ → Uuid) → Text → Option (List Text)
  unfolding content_to_parse parse rule_lines
  extract_existing_lines uuids current = elim (content_to_parse current) [
    | none ↦ none
    | some s ↦ some (rule_lines (parse {A = A} uuids s).rules)
  ]

module _ {A : Type 0} ⦃ip : IpAddr A⦄ where
  unfoldable pub calculate_diff : (ℕ → Uuid) → Text → List (ResolvedRule A) → Option HostsDiff
  unfolding extract_existing_lines diff_of
  calculate_diff uuids current rules = elim (extract_existing_lines A uuids current) [
    | none ↦ none
    | some existing ↦ some (diff_of existing rules)
  ]
