-- ===== src/Hosts/Parser/Mapping.antt =====
-- How a line with an address and a domain is read.
use m_host.Common.{
  Text, ℕ, Bool, true, false, ◌||◌, none, some, [], ◌∷◌, ◌++◌, ◌≡◌, ◌≢◌, refl, arith, ◌==◌, any,
  all, is_empty, is_whitespace, starts_with_char, contains_char, split_by, split_once,
  split_whitespace, trim, trim_start_by, trim_end_by, is_ascii_digit, is_ascii_alphanumeric,
}
use mathlib.Core.List.{append_assoc}
use m_host.Common.Lists.{all-append}
use m_host.Common.Result.{ok}
use m_host.Core.Ip.{IpAddr, is_ip_char}
use m_host.Core.Models.{Uuid, new_rule}
use m_host.Hosts.Validator.{is_valid_domain, is_domain_char}
use m_host.Hosts.Parser.{
  check_domains, split_comment, parse_tokens, domains_of, address, with_comment, parse_line,
}

module _ (p : ℕ → Bool) where
  all_of_none : (w : Text) → w ≢ [] → any p w ≡ false → all p w ≡ false
  all_of_none [] ne h = absurd (ne refl)
  all_of_none (c ∷ w) ne h = ground arith

  trim_end_by-word : (w : Text) → any p w ≡ false → trim_end_by p w ≡ w
  unfolding trim_end_by
  trim_end_by-word [] h = refl
  trim_end_by-word (c ∷ w) h = ground (arith, trim_end_by-word w)

  trim_end_by_word_end : (l w : Text) → w ≢ [] → any p w ≡ false → trim_end_by p (l ++ w) ≡ l ++ w
  unfolding trim_end_by
  trim_end_by_word_end [] w ne h = trim_end_by-word w h
  trim_end_by_word_end (c ∷ l) w ne h =
      ground (arith, trim_end_by_word_end l w ne h, all-append p l w, all_of_none w ne h)

  trim_by_words :
      (v x w : Text)
      → v ≢ []
      → any p v ≡ false
      → w ≢ []
      → any p w ≡ false
      → trim_end_by p (trim_start_by p (v ++ (x ++ w))) ≡ v ++ (x ++ w)
  unfolding trim_start_by
  trim_by_words [] x w ne h k e = absurd (ne refl)
  trim_by_words (c ∷ v) x w ne h k e =
      let starts : p c ≡ false = ground arith in
      rw (starts, ← append_assoc (c ∷ v) x w) (trim_end_by_word_end ((c ∷ v) ++ x) w k e)

  split_by-word : (w : Text) → any p w ≡ false → split_by p w ≡ w ∷ []
  unfolding split_by
  split_by-word [] h = refl
  split_by-word (c ∷ w) h = ground (arith, split_by-word w)

  split_by_words :
      (v : Text) (c : ℕ) (w : Text)
      → any p v ≡ false
      → p c ≡ true
      → any p w ≡ false
      → split_by p (v ++ c ∷ w) ≡ v ∷ w ∷ []
  unfolding split_by
  split_by_words [] c w h k e = rw (k, split_by-word w e) refl
  split_by_words (x ∷ v) c w h k e = ground (arith, split_by_words v c w)

split_once-none : (c : ℕ) (s : Text) → contains_char c s ≡ false → split_once c s ≡ none
unfolding split_once
split_once-none c [] h = refl
split_once-none c (x ∷ s) h = ground (arith, split_once-none c s)

ip_char : (c : ℕ) → is_ip_char c ≡ true → (is_whitespace c ≡ false) × ((c == b'#') ≡ false)
unfolding is_ip_char is_whitespace is_ascii_digit
ip_char c h = ground arith

ip_chars :
    (s : Text)
    → all is_ip_char s ≡ true
    → (any is_whitespace s ≡ false) × (contains_char b'#' s ≡ false)
ip_chars [] h = ground arith
ip_chars (c ∷ s) h = ground (arith, ip_char c, ip_chars s)

domain_char : (c : ℕ) → is_domain_char c ≡ true → (is_whitespace c ≡ false) × ((c == b'#') ≡ false)
unfolding is_domain_char is_whitespace is_ascii_digit is_ascii_alphanumeric
domain_char c h = ground arith

domain_chars :
    (s : Text)
    → all is_domain_char s ≡ true
    → (any is_whitespace s ≡ false) × (contains_char b'#' s ≡ false)
domain_chars [] h = ground arith
domain_chars (c ∷ s) h = ground (arith, domain_char c, domain_chars s)

-- A valid domain has text, and none of the characters that the syntax of a line uses.
pub is_valid_domain_text :
    (d : Text)
    → is_valid_domain d ≡ true
    → (d ≢ []) × (any is_whitespace d ≡ false) × (contains_char b'#' d ≡ false)
unfolding is_valid_domain
is_valid_domain_text [] h = cc
is_valid_domain_text (c ∷ d) h =
    let (space, hash) = domain_chars (c ∷ d) (ground arith) in (λ e. cc, space, hash)

contains_char-append :
    (c : ℕ) (a b : Text) → contains_char c (a ++ b) ≡ (contains_char c a || contains_char c b)
contains_char-append c [] b = refl
contains_char-append c (x ∷ a) b = ground (arith, contains_char-append c a b)

starts_other :
    (c : ℕ) (v rest : Text)
    → v ≢ []
    → contains_char c v ≡ false
    → (is_empty (v ++ rest) ≡ false) × (starts_with_char c (v ++ rest) ≡ false)
starts_other c [] rest ne h = absurd (ne refl)
starts_other c (x ∷ v) rest ne h = (refl, ground arith)

is_empty_word : (w : Text) → w ≢ [] → is_empty w ≡ false
is_empty_word [] ne = absurd (ne refl)
is_empty_word (c ∷ w) ne = refl

split_whitespace-words :
    (v w : Text)
    → v ≢ []
    → any is_whitespace v ≡ false
    → w ≢ []
    → any is_whitespace w ≡ false
    → split_whitespace (v ++ b' ' ∷ w) ≡ v ∷ w ∷ []
unfolding split_whitespace
split_whitespace-words v w nv h nw k =
    rw
      (
        split_by_words is_whitespace v b' ' w h (unfold is_whitespace in refl) k,
        is_empty_word v nv,
        is_empty_word w nw,
      )
      refl

module _ {A : Type 0} ⦃ip : IpAddr A⦄ where
  parse_tokens-mapping :
      (id : Uuid) (line : Text) (a : A) (d : Text)
      → is_valid_domain d ≡ true
      → parse_tokens id line none (ip.display a ∷ d ∷ []) ≡ ok (some (new_rule id a (d ∷ [])))
  unfolding parse_tokens domains_of check_domains with_comment
  parse_tokens-mapping id line a d h = rw (address, ip.from_str-display a, h) refl

  -- A line with an address and a valid domain is read as the rule that maps the one to the other.
  pub parse_line-mapping :
      (id : Uuid) (a : A) (d : Text)
      → is_valid_domain d ≡ true
      → parse_line id (ip.display a ++ b' ' ∷ d) ≡ ok (some (new_rule id a (d ∷ [])))
  unfolding parse_line
  parse_line-mapping id a d h =
      let (some_text, no_space, no_hash) = is_valid_domain_text d h in
      let (addr_space, addr_hash) = ip_chars (ip.display a) (ip.display_chars a) in
      let (some_line, other_start) =
        starts_other b'#' (ip.display a) (b' ' ∷ d) (ip.display-ne-nil a) addr_hash in
      let trimmed : trim (ip.display a ++ b' ' ∷ d) ≡ ip.display a ++ b' ' ∷ d =
        unfold trim in
        trim_by_words is_whitespace (ip.display a) (b' ' ∷ []) d (ip.display-ne-nil a) addr_space
          some_text no_space in
      let no_comment : split_once b'#' (ip.display a ++ b' ' ∷ d) ≡ none =
        split_once-none b'#' (ip.display a ++ b' ' ∷ d)
          (rw (contains_char-append b'#' (ip.display a) (b' ' ∷ d), addr_hash, no_hash) refl) in
      rw
        (
          trimmed,
          some_line,
          other_start,
          split_comment,
          no_comment,
          trimmed,
          some_line,
          split_whitespace-words (ip.display a) d (ip.display-ne-nil a) addr_space some_text
              no_space,
        )
        (parse_tokens-mapping id _ a d h)
