-- ===== src/Dns/Resolver.antt =====
-- src-tauri/crates/mhost-dns/src/resolver.rs. The lock of the engine is not modelled: a rebuild
-- writes the whole table at once, and a poisoned lock is read and written like any other. The
-- `HashMap` is an association list with distinct keys.
pub mod FirstWins
use m_host.Common.{
  Text, ℕ, zero, suc, ◌+◌, Bool, true, false, ◌&&◌, Option, none, some, List, [], ◌∷◌,
  if◌then◌else◌, eqb, length, filter, is_some, split_once, text_leb,
}
use m_host.Common.Sort.{sort_by}
use m_host.Core.Models.{Profile, HostRule, ProfileMode, dns, same_mode}

abbrev pub Table : Type 0 → Type 0
Table V = List (Text × V)

module _ {V : Type 0} where
  -- `HashMap::get`
  unfoldable pub get : Text → Table V → Option V
  get key [] = none
  get key ((k, v) ∷ rest) = let found = get key rest in if eqb k key then some v else found

  -- `if new_rules.contains_key(domain) { … continue; } new_rules.insert(…)`
  unfoldable pub insert_first : Text → V → Table V → Table V
  insert_first domain ip table = if is_some (get domain table) then table else (domain, ip) ∷ table

  unfoldable pub add_domains : V → List Text → Table V → Table V
  unfolding insert_first
  add_domains ip [] table = table
  add_domains ip (d ∷ ds) table = add_domains ip ds (insert_first d ip table)

  -- `let Some(ip) = rule.ip else { continue };`, and the loop over the domains
  abbrev pub add_rule : HostRule V → Option V → Table V → Table V
  add_rule r none table = table
  add_rule r (some ip) table = add_domains ip r.domains table

  unfoldable pub add_rules : List (HostRule V) → Table V → Table V
  unfolding add_domains
  add_rules [] table = table
  add_rules (r ∷ rs) table = add_rules rs (if r.enabled then add_rule r r.ip table else table)

  unfoldable pub add_profiles : List (Profile V) → Table V → Table V
  unfolding add_rules
  add_profiles [] table = table
  add_profiles (p ∷ ps) table = add_profiles ps (add_rules p.rules table)

  abbrev pub is_active : Profile V → Bool
  is_active p = same_mode p.mode dns && p.enabled

  unfoldable pub active_profiles : List (Profile V) → List (Profile V)
  active_profiles profiles = sort_by (λ a b. text_leb a.name b.name) (filter is_active profiles)

  unfoldable pub rebuild : List (Profile V) → Table V
  unfolding add_profiles active_profiles
  rebuild profiles = add_profiles (active_profiles profiles) []

  -- The loop of `resolve`. Each round drops a character at least.
  unfoldable pub lookup_from : ℕ → Text → Table V → Option V
  unfolding get
  lookup_from zero current table = none
  lookup_from (suc fuel) current table = elim (get current table) [
    | some ip ↦ some ip
    | none ↦ elim (split_once b'.' current) [
      | none ↦ none
      | some (_, parent) ↦ lookup_from fuel parent table
    ]
  ]

  unfoldable pub resolve : Text → Table V → Option V
  unfolding lookup_from
  resolve domain table = lookup_from (suc (length domain)) domain table

  abbrev pub rule_count : Table V → ℕ
  rule_count table = length table
