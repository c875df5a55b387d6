-- ===== src/Hosts/Duplicates.antt =====
-- `check_duplicates` of src-tauri/crates/mhost-hosts/src/validator.rs. The `BTreeMap` is the list
-- of its entries in the order of the keys, the `BTreeSet` of line numbers an ascending list.
use m_host.Common.{
  Text, ℕ, Bool, true, Option, some, List, [], ◌∷◌, ◌++◌, if◌then◌else◌, ◌==◌, ltb, length, all,
  eqb, text_leb,
}
use m_host.Core.Ip.{IpAddr}
use m_host.Core.Models.{HostRule, same_ip, different_ip, DuplicateRule}

abbrev pub DomainMap : Type 0
DomainMap = List (Text × List (ℕ × Text))

-- `domain_map.entry(domain).or_default().push(entry)`
unfoldable pub push_entry : Text → ℕ × Text → DomainMap → DomainMap
push_entry d e [] = (d, e ∷ []) ∷ []
push_entry d e ((k, es) ∷ m) =
    if eqb k d
    then (k, es ++ e ∷ []) ∷ m
    else if text_leb d k
    then (d, e ∷ []) ∷ (k, es) ∷ m
    else (k, es) ∷ push_entry d e m

-- insertion into a `BTreeSet<usize>`
unfoldable pub insert_line : ℕ → List ℕ → List ℕ
insert_line n [] = n ∷ []
insert_line n (m ∷ ms) =
    if n == m then m ∷ ms else if ltb n m then n ∷ m ∷ ms else m ∷ insert_line n ms

unfoldable pub line_set : List (ℕ × Text) → List ℕ
unfolding insert_line
line_set [] = []
line_set ((n, _) ∷ es) = insert_line n (line_set es)

-- `ips.iter().all(|ip| ip == &ips[0])`
unfoldable pub all_same : List (ℕ × Text) → Bool
all_same [] = true
all_same ((n, t) ∷ es) = all (λ e. eqb e.1 t) ((n, t) ∷ es)

-- The loop over `domain_map`.
unfoldable pub duplicates_of : DomainMap → List DuplicateRule
unfolding line_set all_same
duplicates_of [] = []
duplicates_of ((d, es) ∷ m) =
    let rest = duplicates_of m in
    if ltb (length es) 2
    then rest
    else record {
      domain = d;
      lines = line_set es;
      kind = if all_same es then same_ip else different_ip;
    }
      ∷ rest

push_domains : ℕ × Text → List Text → DomainMap → DomainMap
unfolding push_entry
push_domains e [] m = m
push_domains e (d ∷ ds) m = push_domains e ds (push_entry d e m)

module _ {A : Type 0} ⦃ip : IpAddr A⦄ where
  push_rule : Option A → Option ℕ → List Text → DomainMap → DomainMap
  push_rule (some a) (some n) ds m = push_domains (n, ip.display a) ds m
  push_rule _ _ ds m = m

  -- The loop over the rules.
  unfoldable pub collect_domains : List (HostRule A) → DomainMap → DomainMap
  unfolding push_domains push_rule
  collect_domains [] m = m
  collect_domains (r ∷ rs) m =
      collect_domains rs (if r.enabled then push_rule r.ip r.line_number r.domains m else m)

  unfoldable pub check_duplicates : List (HostRule A) → List DuplicateRule
  unfolding collect_domains duplicates_of
  check_duplicates rules = duplicates_of (collect_domains rules [])
