-- ===== src/Hosts/Parser/Valid.antt =====
-- What `Parser::parse` accepts: rules with valid domains only.
use m_host.Common.{
  Text, ℕ, suc, true, Option, none, some, List, [], ◌∷◌, ◌≡◌, arith, All, Bool-cases, inl, inr,
  is_empty, trim, starts_with_char, split_whitespace,
}
use m_host.Common.Result.{Result, Result-cases, ok, err}
use m_host.Core.Errors.{ParseError}
use m_host.Core.Ip.{IpAddr}
use m_host.Core.Models.{Uuid, HostRule, new_rule, comment_only}
use m_host.Hosts.Validator.{is_valid_domain}
use m_host.Hosts.Parser.{
  ParseResult, check_domains, domains_of, address, with_comment, parse_tokens, parse_content,
  split_comment, parse_line, collect, parse_from, parse,
}

abbrev pub Valid : List Text → Type 0
Valid ds = All (λ d. is_valid_domain d ≡ true) ds

check_domains-Valid : (ds ds' : List Text) → check_domains ds ≡ ok ds' → Valid ds'
unfolding check_domains
check_domains-Valid [] ds' h = ground arith
check_domains-Valid (d ∷ ds) ds' h = elim (Result-cases (check_domains ds)) [
  | inl (rest, e) ↦ ground (arith, check_domains-Valid ds rest e)
  | inr (why, e) ↦ absurd (ground arith)
]

domains_of-Valid : (line : Text) (ds ds' : List Text) → domains_of line ds ≡ ok ds' → Valid ds'
unfolding domains_of
domains_of-Valid line [] ds' h = cc
domains_of-Valid line (d ∷ ds) ds' h = check_domains-Valid (d ∷ ds) ds' h

module _ {A : Type 0} where
  abbrev pub ValidRule : HostRule A → Type 0
  ValidRule r = Valid r.domains

  abbrev ValidOutcome : Result ParseError (Option (HostRule A)) → Type 0
  ValidOutcome (ok (some r)) = ValidRule r
  ValidOutcome (ok none) = Unit
  ValidOutcome (err e) = Unit

module _ (A : Type 0) ⦃ip : IpAddr A⦄ where
  with_comment-Valid :
      (c : Option Text) (r : HostRule A) → ValidRule r → ValidRule (with_comment c r)
  unfolding with_comment
  with_comment-Valid none r h = h
  with_comment-Valid (some c) r h = elim (Bool-cases (is_empty c)) [
    | inl e ↦ rw e h
    | inr e ↦ rw e h
  ]

  parse_tokens-Valid :
      (id : Uuid) (line : Text) (c : Option Text) (words : List Text)
      → ValidOutcome (parse_tokens {A = A} id line c words)
  unfolding parse_tokens
  parse_tokens-Valid id line c [] = tt
  parse_tokens-Valid id line c (w ∷ ws) = elim (Result-cases (address {A = A} line w)) [
    | inr (why, e) ↦ rw e tt
    | inl (a, e) ↦ rw e (elim (Result-cases (domains_of line ws)) [
      | inr (why, k) ↦ rw k tt
      | inl (ds, k) ↦ rw k (
          with_comment-Valid c (new_rule id a ds)
            (unfold new_rule in domains_of-Valid line ws ds k))
    ])
  ]

  parse_content-Valid :
      (id : Uuid) (line : Text) (parts : Text × Option Text)
      → ValidOutcome (parse_content {A = A} id line parts)
  unfolding parse_content
  parse_content-Valid id line (content, comment) = elim (Bool-cases (is_empty content)) [
    | inl e ↦ rw e tt
    | inr e ↦ rw e (parse_tokens-Valid id line comment (split_whitespace content))
  ]

  parse_line-Valid : (id : Uuid) (line : Text) → ValidOutcome (parse_line {A = A} id line)
  unfolding parse_line comment_only
  parse_line-Valid id line = elim (Bool-cases (is_empty (trim line))) [
    | inl e ↦ rw e tt
    | inr e ↦ rw e (elim (Bool-cases (starts_with_char b'#' (trim line))) [
      | inl k ↦ rw k tt
      | inr k ↦ rw k (parse_content-Valid id line (split_comment (trim line)))
    ])
  ]

  parse_from-Valid :
      (uuids : ℕ → Uuid) (i : ℕ) (ls : List Text)
      → All ValidRule (parse_from {A = A} uuids i ls).rules
  unfolding parse_from
  parse_from-Valid uuids i [] = tt
  parse_from-Valid uuids i (l ∷ ls) =
      collected (parse_line {A = A} (uuids i) l) (parse_line-Valid (uuids i) l) _
        (parse_from-Valid uuids (suc i) ls)
    where
      collected :
          (o : Result ParseError (Option (HostRule A)))
          → ValidOutcome o
          → (r : ParseResult A) → All ValidRule r.rules
          → All ValidRule (collect o r).rules
      collected (ok (some r)) h q k = unfold collect in (h, k)
      collected (ok none) h q k = unfold collect in k
      collected (err e) h q k = unfold collect in k

  -- Every domain of a rule that is parsed is valid.
  pub parse-Valid :
      (uuids : ℕ → Uuid) (input : Text) → All ValidRule (parse {A = A} uuids input).rules
  unfolding parse
  parse-Valid uuids input = parse_from-Valid uuids 0 _
