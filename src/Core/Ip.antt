-- ===== src/Core/Ip.antt =====
-- What the program uses of `std::net::IpAddr`: its text form both ways, equality, order, and the
-- two classes of local addresses. The type is a parameter of the model; the laws are those that
-- the standard library documents.
use m_host.Common.{
  Text, Bool, true, Option, some, [], ◌≡◌, ◌≢◌, ◌↔◌, ◌⊎◌, ℕ, ◌||◌, ◌&&◌, leb, ◌==◌, all,
  is_ascii_digit,
}

-- The characters of a printed address: digits, lower case hexadecimal letters, `.` and `:`.
unfoldable pub is_ip_char : ℕ → Bool
unfolding is_ascii_digit
is_ip_char c = is_ascii_digit c || (leb b'a' c && leb c b'f') || c == b'.' || c == b':'

pub record IpAddr (A : Type 0) : Type 0 where
  pub from_str : Text → Option A
  pub display : A → Text
  pub same : A → A → Bool
  pub at_most : A → A → Bool
  pub is_loopback : A → Bool
  pub is_unspecified : A → Bool
  pub from_str-display : (a : A) → from_str (display a) ≡ some a
  pub display_chars : (a : A) → all is_ip_char (display a) ≡ true
  pub display-ne-nil : (a : A) → display a ≢ []
  pub same_iff : (a b : A) → (same a b ≡ true) ↔ (a ≡ b)
  pub at_most_total : (a b : A) → (at_most a b ≡ true) ⊎ (at_most b a ≡ true)
  pub at_most_trans : (a b c : A) → at_most a b ≡ true → at_most b c ≡ true → at_most a c ≡ true
  pub at_most_antisym : (a b : A) → at_most a b ≡ true → at_most b a ≡ true → a ≡ b
