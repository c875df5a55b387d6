-- ===== src/Core/OriginalDns.antt =====
-- src-tauri/crates/mhost-core/src/models.rs: the DNS servers to restore, and the snapshot of those in
-- force. `SocketAddr::from_str` is the interface `SocketText`. What serde reads is given by its shape.
use m_host.Common.{
  Text, Bool, true, false, not, ◌||◌, Option, none, some, List, [], ◌∷◌, if◌then◌else◌, any, filter,
  is_empty, codes, eqb, or_else,
}
use m_host.Core.Ip.{IpAddr}

-- The address of a socket address, with its port.
pub record SocketText (A : Type 0) : Type 0 where
  pub ip_of_socket : Text → Option A

pub data OriginalDns : Type 0 where
  manual_servers : List Text → OriginalDns
  dhcp_empty : OriginalDns

-- The shapes of a document: tagged, or the bare list of earlier versions.
pub data Repr : Type 0 where
  tagged_manual legacy : List Text → Repr
  tagged_dhcp_empty : Repr

pub record SystemDnsSnapshot : Type 0 where
  pub interface_name : Text
  pub servers : List Text
  pub points_at_loopback : Bool

abbrev pub empty_word : Text
empty_word = codes "Empty"

unfoldable pub is_manual : OriginalDns → Bool
is_manual (manual_servers s) = true
is_manual dhcp_empty = false

abbrev pub empty_if_none : List Text → List Text
empty_if_none [] = empty_word ∷ []
empty_if_none (s ∷ rest) = s ∷ rest

module _ (A : Type 0) ⦃ip : IpAddr A⦄ ⦃socket : SocketText A⦄ where
  abbrev pub is_local_address : Option A → Bool
  is_local_address none = false
  is_local_address (some a) = ip.is_loopback a || ip.is_unspecified a

  unfoldable pub is_local_resolver : Text → Bool
  is_local_resolver server =
      is_local_address (or_else (socket.ip_of_socket server) (ip.from_str server))

  abbrev pub public_only : List Text → List Text
  public_only servers = filter (λ s. not (is_local_resolver s)) servers

  unfoldable pub restore_argv : OriginalDns → List Text
  unfolding is_local_resolver
  restore_argv (manual_servers s) = empty_if_none (public_only s)
  restore_argv dhcp_empty = empty_word ∷ []

  unfoldable pub deserialize : Repr → OriginalDns
  unfolding is_local_resolver eqb
  deserialize (tagged_manual servers) = manual_servers (public_only servers)
  deserialize tagged_dhcp_empty = dhcp_empty
  deserialize (legacy servers) =
      let filtered = public_only servers in
      if is_empty filtered || any (λ s. eqb s empty_word) filtered
      then dhcp_empty
      else manual_servers filtered

  -- `SystemDnsSnapshot::new`
  unfoldable pub new_snapshot : Text → List Text → SystemDnsSnapshot
  unfolding is_local_resolver
  new_snapshot interface_name servers = record {
    interface_name = interface_name;
    servers = servers;
    points_at_loopback = any (λ s. is_local_resolver s) servers;
  }
