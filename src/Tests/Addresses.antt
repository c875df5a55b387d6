-- ===== src/Tests/Addresses.antt =====
-- Three addresses with their text forms, which meet what the model asks of `IpAddr`.
use m_host.Common.{
  Text, ℕ, Bool, true, false, Option, none, some, ◌≡◌, ◌≢◌, ◌↔◌, ◌⊎◌, inl, inr, refl, codes, eqb,
  leb, if◌then◌else◌, arith, [], all,
}
use m_host.Core.Ip.{IpAddr, is_ip_char}

pub data Address : Type 0 where
  zero_address local_address public_address : Address

abbrev pub show : Address → Text
show zero_address = codes "0.0.0.0"
show local_address = codes "127.0.0.1"
show public_address = codes "8.8.8.8"

unfoldable pub read : Text → Option Address
unfolding eqb
read t =
    if eqb t (codes "0.0.0.0")
    then some zero_address
    else if eqb t (codes "127.0.0.1")
    then some local_address
    else if eqb t (codes "8.8.8.8")
    then some public_address
    else none

abbrev rank : Address → ℕ
rank zero_address = 0
rank public_address = 1
rank local_address = 2

abbrev same_address : Address → Address → Bool
same_address zero_address zero_address = true
same_address local_address local_address = true
same_address public_address public_address = true
same_address _ _ = false

pub read-show : (a : Address) → read (show a) ≡ some a
unfolding read
read-show zero_address = refl
read-show _ = refl

pub show_chars : (a : Address) → all is_ip_char (show a) ≡ true
unfolding is_ip_char
show_chars zero_address = refl
show_chars _ = refl

pub show-ne-nil : (a : Address) → show a ≢ []
show-ne-nil zero_address e = cc
show-ne-nil _ e = cc

pub same_address_iff : (a b : Address) → (same_address a b ≡ true) ↔ (a ≡ b)
same_address_iff a b = ground arith

pub rank_total : (a b : Address) → (leb (rank a) (rank b) ≡ true) ⊎ (leb (rank b) (rank a) ≡ true)
rank_total zero_address b = inl (ground arith)
rank_total local_address b = inr (ground arith)
rank_total public_address zero_address = inr refl
rank_total public_address local_address = inl refl
rank_total public_address public_address = inl refl

pub rank_trans :
    (a b c : Address)
    → leb (rank a) (rank b) ≡ true
    → leb (rank b) (rank c) ≡ true
    → leb (rank a) (rank c) ≡ true
rank_trans a b c h k = ground arith

pub rank_antisym :
    (a b : Address) → leb (rank a) (rank b) ≡ true → leb (rank b) (rank a) ≡ true → a ≡ b
rank_antisym a b h k = ground arith

instance abbrev pub test_addresses : IpAddr Address
test_addresses = record {
  from_str = read;
  display = show;
  same = same_address;
  at_most = λ a b. leb (rank a) (rank b);
  is_loopback = λ a. same_address a local_address;
  is_unspecified = λ a. same_address a zero_address;
  from_str-display = read-show;
  display_chars = show_chars;
  display-ne-nil = show-ne-nil;
  same_iff = same_address_iff;
  at_most_total = rank_total;
  at_most_trans = rank_trans;
  at_most_antisym = rank_antisym;
}
