-- ===== src/Hosts/Validate.antt =====
-- `parse_with_lines` and `parse_errors_only` of src-tauri/crates/mhost-hosts/src/parser.rs
use m_host.Common.{Text, ℕ, suc, Option, none, some, List, [], ◌∷◌, lines}
use m_host.Common.Result.{Result, ok, err}
use m_host.Core.Errors.{ParseError}
use m_host.Core.Ip.{IpAddr}
use m_host.Core.Models.{Uuid, HostRule, DuplicateRule}
use m_host.Hosts.Parser.{parse_line}
use m_host.Hosts.Duplicates.{check_duplicates}

pub record ParseErrorAtLine : Type 0 where
  pub line_number : ℕ
  pub error : ParseError

pub record ValidateResult (A : Type 0) : Type 0 where
  pub rules : List (HostRule A)
  pub errors : List ParseErrorAtLine
  pub duplicates : List DuplicateRule

module _ {A : Type 0} ⦃ip : IpAddr A⦄ where
  -- the rules and the errors collected so far
  collect :
      ℕ
      → Result ParseError (Option (HostRule A))
      → List (HostRule A) × List ParseErrorAtLine
      → List (HostRule A) × List ParseErrorAtLine
  collect n (ok (some rule)) (rules, errors) =
      (record rule { line_number = some n } ∷ rules, errors)
  collect n (ok none) (rules, errors) = (rules, errors)
  collect n (err e) (rules, errors) = (rules, record { line_number = n; error = e } ∷ errors)

  -- The loop from line `i` on; line numbers count from 1.
  unfoldable pub numbered_from :
      (ℕ → Uuid) → ℕ → List Text → List (HostRule A) × List ParseErrorAtLine
  unfolding collect
  numbered_from uuids i [] = ([], [])
  numbered_from uuids i (l ∷ ls) =
      collect (suc i) (parse_line (uuids i) l) (numbered_from uuids (suc i) ls)

  unfoldable pub parse_with_lines : (ℕ → Uuid) → Text → ValidateResult A
  unfolding numbered_from check_duplicates
  parse_with_lines uuids text =
      let (rules, errors) = numbered_from uuids 0 (lines text) in
      record { rules = rules; errors = errors; duplicates = check_duplicates rules }

  keep_error :
      ℕ → Result ParseError (Option (HostRule A)) → List ParseErrorAtLine → List ParseErrorAtLine
  keep_error n (err e) errors = record { line_number = n; error = e } ∷ errors
  keep_error n (ok _) errors = errors

module _ (A : Type 0) ⦃ip : IpAddr A⦄ where
  unfoldable pub errors_from : (ℕ → Uuid) → ℕ → List Text → List ParseErrorAtLine
  unfolding keep_error
  errors_from uuids i [] = []
  errors_from uuids i (l ∷ ls) =
      keep_error (suc i) (parse_line {A = A} (uuids i) l) (errors_from uuids (suc i) ls)

  unfoldable pub parse_errors_only : (ℕ → Uuid) → Text → List ParseErrorAtLine
  unfolding errors_from
  parse_errors_only uuids text = errors_from uuids 0 (lines text)
