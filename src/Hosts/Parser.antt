-- ===== src/Hosts/Parser.antt =====
-- src-tauri/crates/mhost-hosts/src/parser.rs: lines into rules and errors. Each line may draw one
-- UUID; `uuids i` is the one that line `i` of the input draws.
pub mod Mapping
pub mod Valid
use m_host.Common.{
  Text, ℕ, suc, Option, none, some, List, [], ◌∷◌, if◌then◌else◌, is_empty, starts_with_char,
  split_once, split_whitespace, trim, lines,
}
use m_host.Common.Result.{Result, ok, err, ◌>>=◌}
use m_host.Core.Errors.{ParseError, invalid_ip, invalid_domain, malformed_line}
use m_host.Core.Ip.{IpAddr}
use m_host.Core.Models.{Uuid, HostRule, new_rule, comment_only}
use m_host.Hosts.Validator.{is_valid_domain, looks_like_ip}

-- The loop over `tokens[1..]`.
unfoldable pub check_domains : List Text → Result ParseError (List Text)
check_domains [] = ok []
check_domains (d ∷ ds) =
    let rest = check_domains ds in
    if is_valid_domain d then (do ds' ← rest; ok (d ∷ ds')) else err (invalid_domain d)

unfoldable domains_of : Text → List Text → Result ParseError (List Text)
unfolding check_domains
domains_of line [] = err (malformed_line line)
domains_of line (d ∷ ds) = check_domains (d ∷ ds)

-- `trimmed.split_once('#')`, both sides trimmed
abbrev pub split_comment : Text → Text × Option Text
split_comment trimmed = elim (split_once b'#' trimmed) [
  | some (c, comment_text) ↦ (trim c, some (trim comment_text))
  | none ↦ (trimmed, none)
]

pub record ParseResult (A : Type 0) : Type 0 where
  pub rules : List (HostRule A)
  pub errors : List ParseError

module _ {A : Type 0} ⦃ip : IpAddr A⦄ where
  -- An inline comment is kept when it is not empty.
  unfoldable with_comment : Option Text → HostRule A → HostRule A
  with_comment none rule = rule
  with_comment (some c) rule = if is_empty c then rule else record rule { comment = some c }

  unfoldable address : Text → Text → Result ParseError A
  address line ip_str = elim (ip.from_str ip_str) [
    | some a ↦ ok a
    | none ↦ if looks_like_ip ip_str then err (invalid_ip ip_str) else err (malformed_line line)
  ]

  unfoldable parse_tokens :
      Uuid → Text → Option Text → List Text → Result ParseError (Option (HostRule A))
  unfolding domains_of address with_comment check_domains
  parse_tokens id line comment [] = ok none
  parse_tokens id line comment (ip_str ∷ rest) = do
    a ← address line ip_str
    domains ← domains_of line rest
    ok (some (with_comment comment (new_rule id a domains)))

  unfoldable parse_content :
      Uuid → Text → Text × Option Text → Result ParseError (Option (HostRule A))
  unfolding parse_tokens
  parse_content id line (content, comment) =
      if is_empty content then ok none else parse_tokens id line comment (split_whitespace content)

  unfoldable pub parse_line : Uuid → Text → Result ParseError (Option (HostRule A))
  unfolding check_domains with_comment domains_of address parse_tokens parse_content
  parse_line id line =
      let trimmed = trim line in
      if is_empty trimmed
      then ok none
      else if starts_with_char b'#' trimmed
      then ok (some (comment_only id trimmed))
      else parse_content id line (split_comment trimmed)

  unfoldable collect : Result ParseError (Option (HostRule A)) → ParseResult A → ParseResult A
  collect (ok (some rule)) r = record r { rules = rule ∷ r.rules }
  collect (ok none) r = r
  collect (err e) r = record r { errors = e ∷ r.errors }

  -- The loop from line `i` on, with what it pushes.
  unfoldable pub parse_from : (ℕ → Uuid) → ℕ → List Text → ParseResult A
  unfolding collect
  parse_from uuids i [] = record { rules = []; errors = [] }
  parse_from uuids i (l ∷ ls) = collect (parse_line (uuids i) l) (parse_from uuids (suc i) ls)

  unfoldable pub parse : (ℕ → Uuid) → Text → ParseResult A
  unfolding parse_from
  parse uuids input = parse_from uuids 0 (lines input)
