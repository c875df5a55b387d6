-- ===== src/Hosts/Validator.antt =====
-- src-tauri/crates/mhost-hosts/src/validator.rs: the tests on domains and addresses.
use m_host.Common.{
  Text, ℕ, Bool, true, false, not, ◌&&◌, ◌||◌, [], ◌∷◌, ◌==◌, if◌then◌else◌, all, any, is_empty,
  codes, is_ascii_digit, is_ascii_alphanumeric, starts_with_char, ends_with_char, contains_char,
  contains_str, split_char, split_by, List,
}

-- The test of the loop over `domain.split('.')`.
unfoldable pub is_valid_label : Text → Bool
is_valid_label label =
    if is_empty label
    then false
    else if starts_with_char b'-' label || ends_with_char b'-' label
    then false
    else true

unfoldable pub is_domain_char : ℕ → Bool
unfolding is_ascii_alphanumeric
is_domain_char c = is_ascii_alphanumeric c || c == b'-' || c == b'.'

unfoldable pub is_digit_or_dot : ℕ → Bool
unfolding is_ascii_digit
is_digit_or_dot c = is_ascii_digit c || c == b'.'

unfoldable pub is_valid_domain : Text → Bool
unfolding is_valid_label is_domain_char is_digit_or_dot split_by
is_valid_domain domain =
    if is_empty domain
    then false
    else if starts_with_char b'-' domain || ends_with_char b'-' domain || ends_with_char b'.' domain
    then false
    else if not (all is_domain_char domain)
    then false
    else if all is_digit_or_dot domain
    then false
    else all is_valid_label (split_char b'.' domain)

-- `token.split(':').next().unwrap_or("")`
abbrev first_piece : List Text → Text
first_piece [] = []
first_piece (p ∷ ps) = p

unfoldable pub looks_like_ip : Text → Bool
unfolding is_digit_or_dot is_ascii_digit contains_str split_by
looks_like_ip token =
    if is_empty token
    then false
    else if contains_char b':' token
    then (if contains_str (codes "//") token
        then false
        else not (contains_char b'.' (first_piece (split_char b':' token))))
    else all is_digit_or_dot token
      && contains_char b'.' token
      && any is_ascii_digit token
      && not (starts_with_char b'.' token)
      && not (ends_with_char b'.' token)
