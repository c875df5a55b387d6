-- ===== src/Sources/Blocklist/Cached.antt =====
-- The cache of a list reads back as the list that was fetched.
use m_host.Common.{
  Text, ℕ, suc, Bool, true, false, some, List, [], ◌∷◌, map, ◌≡◌, refl, sym, ap, ap₂, subst, ◌∙◌,
  arith, leb, ◌==◌, all, All, All-append, Bool-cases, inl, inr, is_ascii_digit,
  is_ascii_alphanumeric, starts_with_char, ends_with_char, split_by, split_char, cons_first, codes,
}
use m_host.Common.Result.{ok}
use m_host.Core.Ip.{IpAddr}
use m_host.Core.Models.{Uuid, HostRule, new_rule}
use m_host.Hosts.Validator.{is_valid_domain, is_valid_label, is_domain_char, is_digit_or_dot}
use m_host.Hosts.Parser.{parse_line, parse_from, parse}
use m_host.Hosts.Parser.Mapping.{is_valid_domain_text, parse_line-mapping}
use m_host.Hosts.Parser.Valid.{parse-Valid}
use m_host.Apply.Content.Lines.{IsLine, mapping_line-IsLine, lines-join_lines}
use m_host.Apply.Diff.{mapping_line}
use m_host.Sources.Whitelist.{is_ascii, to_ascii_lowercase, Lowercase}
use m_host.Sources.Blocklist.{cache_line, canon, rule_domains, parse_blocklist_domains}

cons_first-lower :
    (c : ℕ) (ls : List Text)
    → cons_first (to_ascii_lowercase c) (map (map to_ascii_lowercase) ls)
      ≡ map (map to_ascii_lowercase) (cons_first c ls)
cons_first-lower c [] = refl
cons_first-lower c (l ∷ ls) = refl

-- The tests of a domain do not depend on the case of its letters.
module _ (p : ℕ → Bool) (same : (c : ℕ) → p (to_ascii_lowercase c) ≡ p c) where
  all-lower : (s : Text) → all p (map to_ascii_lowercase s) ≡ all p s
  all-lower [] = refl
  all-lower (c ∷ s) = ground (arith, same c, all-lower s)

  split_by-lower :
      (s : Text)
      → split_by p (map to_ascii_lowercase s) ≡ map (map to_ascii_lowercase) (split_by p s)
  unfolding split_by
  split_by-lower [] = refl
  split_by-lower (c ∷ s) =
      rw (same c, split_by-lower s)
        (elim (Bool-cases (p c)) [
          | inl e ↦ rw e refl
          | inr e ↦ rw e (cons_first-lower c (split_by p s))
        ])

starts-lower :
    (s : Text) → starts_with_char b'-' (map to_ascii_lowercase s) ≡ starts_with_char b'-' s
starts-lower [] = refl
starts-lower (c ∷ s) = ground arith

ends-lower :
    (x : ℕ)
    → leb b'A' x ≡ false
    → (s : Text) → ends_with_char x (map to_ascii_lowercase s) ≡ ends_with_char x s
ends-lower x h [] = refl
ends-lower x h (c ∷ []) = ground arith
ends-lower x h (c ∷ d ∷ s) = ends-lower x h (d ∷ s)

is_valid_label-lower : (l : Text) → is_valid_label (map to_ascii_lowercase l) ≡ is_valid_label l
unfolding is_valid_label
is_valid_label-lower [] = refl
is_valid_label-lower (c ∷ l) = ground (arith, starts-lower (c ∷ l), ends-lower b'-' refl (c ∷ l))

labels-lower :
    (ls : List Text) → all is_valid_label (map (map to_ascii_lowercase) ls) ≡ all is_valid_label ls
labels-lower [] = refl
labels-lower (l ∷ ls) = ground (arith, is_valid_label-lower l, labels-lower ls)

is_valid_domain-lower : (d : Text) → is_valid_domain (map to_ascii_lowercase d) ≡ is_valid_domain d
unfolding is_valid_domain
is_valid_domain-lower [] = refl
is_valid_domain-lower (c ∷ d) = ground (
  arith,
  starts-lower (c ∷ d),
  ends-lower b'-' refl (c ∷ d),
  ends-lower b'.' refl (c ∷ d),
  all-lower is_domain_char
      (λ x. unfold is_domain_char is_ascii_alphanumeric is_ascii_digit in ground arith) (c ∷ d),
  all-lower is_digit_or_dot (λ x. unfold is_digit_or_dot is_ascii_digit in ground arith) (c ∷ d),
  split_by-lower (λ x. x == b'.') (λ x. ground arith) (c ∷ d),
  labels-lower (split_char b'.' (c ∷ d)),
)

domain_ascii : (s : Text) → all is_domain_char s ≡ true → is_ascii s ≡ true
unfolding is_domain_char is_ascii_alphanumeric is_ascii_digit
domain_ascii [] h = refl
domain_ascii (c ∷ s) h = ground (arith, domain_ascii s)

valid_ascii : (d : Text) → is_valid_domain d ≡ true → is_ascii d ≡ true
unfolding is_valid_domain
valid_ascii d h = domain_ascii d (ground arith)

lower_twice :
    (s : Text) → map to_ascii_lowercase (map to_ascii_lowercase s) ≡ map to_ascii_lowercase s
lower_twice [] = refl
lower_twice (c ∷ s) = ap₂ ◌∷◌ (ground arith) (lower_twice s)

-- A domain that a cache line gives back: valid, and in lower case.
pub record IsCached ⦃lower : Lowercase⦄ (d : Text) : Type 0 where
  pub valid : is_valid_domain d ≡ true
  pub in_lower_case : lower.to_lowercase d ≡ d

module _ ⦃lower : Lowercase⦄ where
  lower-IsCached : (d : Text) → is_valid_domain d ≡ true → IsCached (lower.to_lowercase d)
  lower-IsCached d h =
      let ascii = lower.to_lowercase-ascii d (valid_ascii d h) in
      let valid : is_valid_domain (map to_ascii_lowercase d) ≡ true = is_valid_domain-lower d ∙ h in
      rw ascii (record {
        valid = valid;
        in_lower_case =
            lower.to_lowercase-ascii (map to_ascii_lowercase d) (valid_ascii _ valid)
            ∙ lower_twice d;
      })

  lowers-IsCached :
      (ds : List Text)
      → All (λ d. is_valid_domain d ≡ true) ds
      → All (λ d. IsCached d) (map lower.to_lowercase ds)
  lowers-IsCached [] h = tt
  lowers-IsCached (d ∷ ds) h = (lower-IsCached d h.0, lowers-IsCached ds h.1)

  rule_domains-IsCached :
      {A : Type 0} (rs : List (HostRule A))
      → All (λ r. All (λ d. is_valid_domain d ≡ true) r.domains) rs
      → All (λ d. IsCached d) (rule_domains rs)
  unfolding rule_domains
  rule_domains-IsCached [] h = tt
  rule_domains-IsCached (r ∷ rs) h = elim (Bool-cases r.enabled) [
    | inl e ↦ rw e (
        All-append (λ d. IsCached d) (map lower.to_lowercase r.domains) (rule_domains rs)
          (lowers-IsCached r.domains h.0) (rule_domains-IsCached rs h.1))
    | inr e ↦ rw e (rule_domains-IsCached rs h.1)
  ]

  parse_blocklist_domains-IsCached :
      (A : Type 0) ⦃ip : IpAddr A⦄ (uuids : ℕ → Uuid) (content : Text)
      → All (λ d. IsCached d) (parse_blocklist_domains A uuids content).domains
  unfolding parse_blocklist_domains
  parse_blocklist_domains-IsCached A ⦃ip⦄ uuids content =
      rule_domains-IsCached (parse {A = A} uuids content).rules (parse-Valid A uuids content)

module _ {A : Type 0} ⦃lower : Lowercase⦄ ⦃ip : IpAddr A⦄ (zero_ip : A)
    (printed : ip.display zero_ip ≡ codes "0.0.0.0") where
  cache_line-mapping : (d : Text) → cache_line d ≡ mapping_line zero_ip d
  unfolding mapping_line
  cache_line-mapping d = rw printed refl

  cache_line-IsLine : (ds : List Text) → All (λ d. IsCached d) ds → All IsLine (map cache_line ds)
  cache_line-IsLine [] h = tt
  cache_line-IsLine (d ∷ ds) h =
      let (text, space, hash) = is_valid_domain_text d h.0.valid in
      (
        subst IsLine (sym (cache_line-mapping d))
            (mapping_line-IsLine zero_ip d (record { not_empty = text; no_space = space })),
        cache_line-IsLine ds h.1,
      )

  parse_line-cache_line :
      (id : Uuid) (d : Text)
      → is_valid_domain d ≡ true
      → parse_line id (cache_line d) ≡ ok (some (new_rule id zero_ip (d ∷ [])))
  parse_line-cache_line id d h =
      ap (parse_line id) (cache_line-mapping d)
      ∙ (unfold mapping_line in parse_line-mapping id zero_ip d h)

  rule_domains-single :
      (id : Uuid) (d : Text) (rs : List (HostRule A))
      → IsCached d
      → rule_domains (new_rule id zero_ip (d ∷ []) ∷ rs) ≡ d ∷ rule_domains rs
  unfolding rule_domains new_rule
  rule_domains-single id d rs h = ap (λ x. x ∷ rule_domains rs) h.in_lower_case

  parse_from-cache_lines :
      (uuids : ℕ → Uuid) (i : ℕ) (ds : List Text)
      → All (λ d. IsCached d) ds
      → (rule_domains (parse_from {A = A} uuids i (map cache_line ds)).rules ≡ ds)
        × ((parse_from {A = A} uuids i (map cache_line ds)).errors ≡ [])
  unfolding parse_from
  parse_from-cache_lines uuids i [] h = (unfold rule_domains in refl, refl)
  parse_from-cache_lines uuids i (d ∷ ds) h =
      let (domains, errors) = parse_from-cache_lines uuids (suc i) ds h.1 in
      rw (parse_line-cache_line (uuids i) d h.0.valid)
        (rule_domains-single (uuids i) d _ h.0 ∙ ap (◌∷◌ d) domains, errors)

  -- A cache that was written from such domains is read back as they were, with no line refused.
  pub parse_blocklist_domains-canon :
      (uuids : ℕ → Uuid) (ds : List Text)
      → All (λ d. IsCached d) ds
      → parse_blocklist_domains A uuids (canon ds) ≡ record { domains = ds; error_count = 0 }
  unfolding parse_blocklist_domains canon parse
  parse_blocklist_domains-canon uuids ds h =
      let (domains, errors) = parse_from-cache_lines uuids 0 ds h in
      rw (lines-join_lines (map cache_line ds) (cache_line-IsLine ds h), domains, errors) refl

  -- The cache of a list in the hosts format reads back as the very domains that were counted when it
  -- was fetched.
  pub parse_blocklist_domains-refetched :
      (uuids uuids' : ℕ → Uuid) (content : Text)
      → (parse_blocklist_domains A uuids'
          (canon (parse_blocklist_domains A uuids content).domains)).domains
        ≡ (parse_blocklist_domains A uuids content).domains
  parse_blocklist_domains-refetched uuids uuids' content =
      ap (λ p. p.domains)
        (parse_blocklist_domains-canon uuids' _ (parse_blocklist_domains-IsCached A uuids content))
