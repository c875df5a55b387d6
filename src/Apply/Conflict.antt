-- ===== src/Apply/Conflict.antt =====
-- src-tauri/crates/mhost-apply/src/conflict.rs
use m_host.Common.{
  Text, ℕ, ◌+◌, Bool, Option, none, some, List, [], ◌∷◌, true, false, any, find, length, eqb,
  text_leb, map,
}
use m_host.Common.Sort.{sort_by}
use m_host.Core.Ip.{IpAddr}
use m_host.Core.Models.{ResolvedRule, RuleConflict}

-- `dedup`: of equal neighbours the first stays; `x` is the last element kept
unfoldable pub dedup_from : Text → List Text → List Text
dedup_from x [] = []
dedup_from x (y ∷ ys) = elim (eqb x y) [ true ↦ dedup_from x ys | false ↦ y ∷ dedup_from y ys ]

unfoldable pub dedup : List Text → List Text
unfolding dedup_from
dedup [] = []
dedup (x ∷ xs) = x ∷ dedup_from x xs

module _ {A : Type 0} where
  unfoldable pub is_conflicted : Text → List (RuleConflict A) → Bool
  is_conflicted domain conflicts = any (λ c. eqb c.domain domain) conflicts

  unfoldable pub conflict_domains : List (RuleConflict A) → List Text
  unfolding dedup sort_by
  conflict_domains conflicts = dedup (sort_by text_leb (map (λ c. c.domain) conflicts))

  unfoldable pub total_conflicted_rules : List (RuleConflict A) → ℕ
  total_conflicted_rules [] = 0
  total_conflicted_rules (c ∷ cs) = length c.rules + total_conflicted_rules cs

  -- What `conflict_ips` and `conflict_sources` share: a text of each rule, sorted, once each.
  unfoldable pub texts_of : (ResolvedRule A → Text) → Option (RuleConflict A) → List Text
  unfolding dedup sort_by
  texts_of f none = []
  texts_of f (some c) = dedup (sort_by text_leb (map f c.rules))

  unfoldable pub conflict_sources : List (RuleConflict A) → Text → List Text
  unfolding texts_of
  conflict_sources conflicts domain =
      texts_of (λ r. r.source_profile_name) (find (λ c. eqb c.domain domain) conflicts)

module _ {A : Type 0} ⦃ip : IpAddr A⦄ where
  unfoldable pub conflict_ips : List (RuleConflict A) → Text → List Text
  unfolding texts_of
  conflict_ips conflicts domain =
      texts_of (λ r. ip.display r.ip) (find (λ c. eqb c.domain domain) conflicts)
