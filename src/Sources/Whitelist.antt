-- ===== src/Sources/Whitelist.antt =====
-- src-tauri/src/commands/adblock.rs: the validation of a whitelist entry, and the changes of the
-- whitelist. `str::to_lowercase` follows the Unicode tables and is the interface `Lowercase`. A
-- reason keeps what its message says besides the entry itself.
pub mod Accepted
use m_host.Common.{
  Text, ℕ, ◌+◌, Bool, true, false, not, ◌||◌, Option, none, some, List, [], ◌∷◌, ◌++◌, map, ◌≡◌,
  if◌then◌else◌, ltb, leb, ◌==◌, ◌&&◌, any, all, filter, is_empty, length, eqb, is_whitespace,
  is_ascii_alphanumeric, starts_with_char, ends_with_char, contains_char, split_by, split_char,
  trim, len, ◌-◌,
}
use m_host.Common.Result.{Result, ok, err}
use m_host.Common.Sort.{mem_text}
use m_host.Core.AdBlock.{AdBlockState}

abbrev pub is_ascii : Text → Bool
is_ascii s = all (λ c. ltb c 0x80) s

abbrev pub is_ascii_uppercase : ℕ → Bool
is_ascii_uppercase c = leb b'A' c && leb c b'Z'

abbrev pub to_ascii_lowercase : ℕ → ℕ
to_ascii_lowercase c = if is_ascii_uppercase c then c + 32 else c

-- What the standard library documents of `str::to_lowercase`.
pub record Lowercase : Type 0 where
  pub to_lowercase : Text → Text
  pub to_lowercase-ascii :
      (s : Text) → is_ascii s ≡ true → to_lowercase s ≡ map to_ascii_lowercase s
  pub to_lowercase_lower : (s : Text) → any is_ascii_uppercase (to_lowercase s) ≡ false

pub data EntryError : Type 0 where
  empty_entry has_whitespace is_path leading_dot has_wildcard : EntryError
  leading_dash trailing_dot empty_label : EntryError
  too_long invalid_char : ℕ → EntryError
  invalid_label : Text → EntryError

abbrev pub max_domain_len : ℕ
max_domain_len = 253

unfoldable pub is_entry_char : ℕ → Bool
unfolding is_ascii_alphanumeric
is_entry_char c = is_ascii_alphanumeric c || c == b'-' || c == b'.'

-- The loop over the characters: the first that is refused.
unfoldable pub check_chars : Text → Result EntryError Unit
unfolding is_entry_char
check_chars [] = ok tt
check_chars (c ∷ s) =
    let rest = check_chars s in if is_entry_char c then rest else err (invalid_char c)

-- The loop over the labels.
unfoldable pub check_labels : List Text → Result EntryError Unit
check_labels [] = ok tt
check_labels (label ∷ labels) =
    let rest = check_labels labels in
    if is_empty label
    then err empty_label
    else if starts_with_char b'-' label || ends_with_char b'-' label
    then err (invalid_label label)
    else rest

abbrev pub after_labels : Text → Result EntryError Unit → Result EntryError Text
after_labels d (ok u) = ok d
after_labels d (err e) = err e

-- The tests on the structure.
unfoldable pub check_structure : Text → Result EntryError Text
unfolding check_labels split_by
check_structure trimmed =
    if starts_with_char b'-' trimmed
    then err leading_dash
    else if ends_with_char b'.' trimmed
    then err trailing_dot
    else after_labels trimmed (check_labels (split_char b'.' trimmed))

abbrev pub after_chars : Text → Result EntryError Unit → Result EntryError Text
after_chars d (ok u) = check_structure d
after_chars d (err e) = err e

unfoldable pub validate_trimmed : Text → Result EntryError Text
unfolding check_chars check_structure is_whitespace
validate_trimmed trimmed =
    if is_empty trimmed
    then err empty_entry
    else if ltb max_domain_len (len trimmed)
    then err (too_long (len trimmed))
    else if any is_whitespace trimmed
    then err has_whitespace
    else if contains_char b'/' trimmed || contains_char b'\\' trimmed
    then err is_path
    else if starts_with_char b'.' trimmed
    then err leading_dot
    else if contains_char b'*' trimmed
    then err has_wildcard
    else after_chars trimmed (check_chars trimmed)

pub record WhitelistInputError : Type 0 where
  pub input : Text
  pub reason : EntryError

-- `vec.push(x)` where the vector does not contain it; the flag counts it as new.
unfoldable pub add_accepted : List Text → List Text → ℕ × List Text
add_accepted [] whitelist = (0, whitelist)
add_accepted (d ∷ ds) whitelist =
    let (n, grown) = add_accepted ds (whitelist ++ d ∷ []) in
    let same = add_accepted ds whitelist in if mem_text d whitelist then same else (n + 1, grown)

-- The loop of `remove_whitelist_impl`: what is removed in all, and the list that is left.
unfoldable pub remove_targets : List Text → List Text → ℕ × List Text
remove_targets [] whitelist = (0, whitelist)
remove_targets (target ∷ targets) whitelist =
    let kept = filter (λ d. not (eqb d target)) whitelist in
    let (n, left) = remove_targets targets kept in ((length whitelist - length kept) + n, left)

module _ ⦃lower : Lowercase⦄ where
  abbrev pub canonical : Text → Text
  canonical raw = lower.to_lowercase (trim raw)

  unfoldable pub validate_whitelist_domain : Text → Result EntryError Text
  unfolding validate_trimmed trim
  validate_whitelist_domain raw = validate_trimmed (canonical raw)

  abbrev pub sort_input :
      Text
      → Result EntryError Text
      → List Text × List WhitelistInputError
      → List Text × List WhitelistInputError
  sort_input raw (ok normalized) (accepted, rejected) = (normalized ∷ accepted, rejected)
  sort_input raw (err why) (accepted, rejected) =
      (accepted, record { input = raw; reason = why } ∷ rejected)

  -- The first loop of `add_whitelist_impl`.
  unfoldable pub sort_inputs : List Text → List Text × List WhitelistInputError
  unfolding validate_whitelist_domain
  sort_inputs [] = ([], [])
  sort_inputs (raw ∷ rest) = sort_input raw (validate_whitelist_domain raw) (sort_inputs rest)

  -- `remove_whitelist_impl` up to the removal: the targets.
  unfoldable pub targets_of : List Text → List Text
  unfolding trim
  targets_of inputs = filter (λ d. not (is_empty d)) (map canonical inputs)
