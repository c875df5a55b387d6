-- ===== src/Apply/Merge.antt =====
-- src-tauri/crates/mhost-apply/src/merge.rs. A `HashMap` is the list of its entries with distinct
-- keys, a `HashSet` the list of its elements: no result depends on the order of iteration, since
-- each list that leaves `merge` is sorted by a key that is unique in it.
pub mod Sound
use m_host.Common.{
  Text, Bool, not, ◌&&◌, Option, none, some, List, [], ◌∷◌, ◌++◌, if◌then◌else◌, ltb, length, any,
  filter, eqb, text_leb, map,
}
use m_host.Common.Sort.{sort_by, mem_text}
use m_host.Core.Ip.{IpAddr}
use m_host.Core.Models.{Profile, HostRule, ResolvedRule, RuleConflict}

pub record MergeResult (A : Type 0) : Type 0 where
  pub rules : List (ResolvedRule A)
  pub conflicts : List (RuleConflict A)

-- `by_domain_ip`: a key, and the rule with an empty domain
pub record Entry (A : Type 0) : Type 0 where
  pub domain : Text
  pub ip : A
  pub rule : ResolvedRule A

module _ {A : Type 0} where
  unfoldable pub resolved : Profile A → A → Text → ResolvedRule A
  resolved p a d = record {
    ip = a;
    domain = d;
    source_profile_id = p.id;
    source_profile_name = p.name;
  }

  unfoldable pub resolve_domains : Profile A → Option A → List Text → List (ResolvedRule A)
  resolve_domains p none ds = []
  resolve_domains p (some a) ds = map (resolved p a) ds

  unfoldable pub resolve_rules : Profile A → List (HostRule A) → List (ResolvedRule A)
  unfolding resolved resolve_domains
  resolve_rules p [] = []
  resolve_rules p (r ∷ rs) = resolve_domains p r.ip r.domains ++ resolve_rules p rs

  -- `all_rules`: the first loop
  unfoldable pub all_rules : List (Profile A) → List (ResolvedRule A)
  unfolding resolve_rules
  all_rules [] = []
  all_rules (p ∷ ps) =
      let rest = all_rules ps in
      if p.enabled then resolve_rules p (filter (λ r. r.enabled) p.rules) ++ rest else rest

module _ {A : Type 0} ⦃ip : IpAddr A⦄ where
  -- `HashSet::insert`
  insert_ip : A → List A → List A
  insert_ip a ips = if any (λ b. ip.same b a) ips then ips else a ∷ ips

  -- `domain_to_ips.entry(domain).or_default().insert(ip)`
  unfoldable pub add_ip : Text → A → List (Text × List A) → List (Text × List A)
  unfolding insert_ip
  add_ip d a [] = (d, a ∷ []) ∷ []
  add_ip d a ((k, ips) ∷ m) = if eqb k d then (k, insert_ip a ips) ∷ m else (k, ips) ∷ add_ip d a m

  abbrev pub at_key : Text → A → Entry A → Bool
  at_key d a e = eqb e.domain d && ip.same e.ip a

  -- `by_domain_ip.entry((domain, ip)).or_insert_with(…)`: the first source is kept
  unfoldable pub add_entry : ResolvedRule A → List (Entry A) → List (Entry A)
  add_entry r m =
      if any (at_key r.domain r.ip) m
      then m
      else record { domain = r.domain; ip = r.ip; rule = record r { domain = [] } } ∷ m

  -- The second loop: both maps.
  unfoldable pub ips_from : List (ResolvedRule A) → List (Text × List A) → List (Text × List A)
  unfolding add_ip
  ips_from [] m = m
  ips_from (r ∷ rs) m = ips_from rs (add_ip r.domain r.ip m)

  unfoldable pub entries_from : List (ResolvedRule A) → List (Entry A) → List (Entry A)
  unfolding add_entry
  entries_from [] m = m
  entries_from (r ∷ rs) m = entries_from rs (add_entry r m)

  -- The domains with more than one address, in the order of the map.
  unfoldable pub conflicting : List (Text × List A) → List Text
  conflicting [] = []
  conflicting ((d, ips) ∷ m) =
      let rest = conflicting m in if ltb 1 (length ips) then d ∷ rest else rest

  -- `domain_to_ips[domain]`
  unfoldable pub ips_at : Text → List (Text × List A) → List A
  ips_at d [] = []
  ips_at d ((k, ips) ∷ m) = let rest = ips_at d m in if eqb k d then ips else rest

  -- The rule of an entry, with the domain of its key.
  abbrev pub patched : Entry A → ResolvedRule A
  patched e = record e.rule { domain = e.domain }

  -- `by_domain_ip.remove(&key)`, for each address of a conflict
  unfoldable pub take_rules :
      Text → List A → List (Entry A) → List (ResolvedRule A) × List (Entry A)
  take_rules d [] m = ([], m)
  take_rules d (a ∷ ips) m =
      let (rs, m') = take_rules d ips (filter (λ e. not (at_key d a e)) m) in
      (map patched (filter (at_key d a) m) ++ rs, m')

  -- The loop over `conflict_domains`: the conflicts, and what is left of the map.
  unfoldable pub build_conflicts :
      List Text → List (Text × List A) → List (Entry A) → List (RuleConflict A) × List (Entry A)
  unfolding take_rules ips_at
  build_conflicts [] ips m = ([], m)
  build_conflicts (d ∷ ds) ips m =
      let (rs, m') = take_rules d (ips_at d ips) m in
      let (cs, m'') = build_conflicts ds ips m' in
      (record { domain = d; rules = sort_by (λ a b. ip.at_most a.ip b.ip) rs } ∷ cs, m'')

  -- by domain, then by address
  unfoldable pub rule_at_most : ResolvedRule A → ResolvedRule A → Bool
  rule_at_most a b =
      if eqb a.domain b.domain then ip.at_most a.ip b.ip else text_leb a.domain b.domain

  unfoldable pub merge : List (Profile A) → MergeResult A
  unfolding all_rules ips_from entries_from conflicting build_conflicts rule_at_most sort_by
  merge profiles =
      let rs = all_rules profiles in
      let ips = ips_from rs [] in
      let conflict_domains = sort_by text_leb (conflicting ips) in
      let (cs, left) = build_conflicts conflict_domains ips (entries_from rs []) in
      let free = filter (λ e. not (mem_text e.domain conflict_domains)) left in
      record { rules = sort_by rule_at_most (map patched free); conflicts = cs }
