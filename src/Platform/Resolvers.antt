-- ===== src/Platform/Resolvers.antt =====
-- src-tauri/crates/mhost-dns/src/platform.rs: reading what networksetup and route print, and the
-- choice of the upstream servers. What a command prints is an argument. The file has its own copy
-- of the test on local resolvers that mhost-core has, and that one is used here.
use m_host.Common.{
  Text, ℕ, Bool, false, not, ◌||◌, Option, none, some, List, [], ◌∷◌, map, if◌then◌else◌, ◌==◌, any,
  all, filter, is_empty, is_some, codes, eqb, contains_str, strip_prefix, trim, lines,
  split_whitespace, get_elem?, is_ascii_alphanumeric, or_else,
}
use m_host.Common.Result.{Result, ok, err, ◌>>=◌}
use m_host.Core.Ip.{IpAddr}
use m_host.Core.OriginalDns.{SocketText, is_local_resolver, SystemDnsSnapshot, new_snapshot}

pub data PlatformError : Type 0 where
  empty_interface_name command_failed : PlatformError
  invalid_interface_name : Text → PlatformError

pub data UpstreamTier : Type 0 where
  networksetup ipconfig public_servers : UpstreamTier

unfoldable pub is_valid_interface_char : ℕ → Bool
unfolding is_ascii_alphanumeric
is_valid_interface_char c =
    is_ascii_alphanumeric c || c == b' ' || c == b'.' || c == b'_' || c == b'-' || c == b'/'

unfoldable pub validate_interface_name : Text → Result PlatformError Unit
unfolding is_valid_interface_char
validate_interface_name name =
    if is_empty name
    then err empty_interface_name
    else if not (all is_valid_interface_char name)
    then err (invalid_interface_name name)
    else ok tt

abbrev second_word : Text → Option Text
second_word line = get_elem? (split_whitespace line) 1

-- The loop over the lines, trimmed.
unfoldable pub parse_route_lines : List Text → Option Text
unfolding trim split_whitespace strip_prefix
parse_route_lines [] = none
parse_route_lines (l ∷ ls) =
    let rest = parse_route_lines ls in
    if is_some (strip_prefix (codes "interface:") (trim l))
    then or_else (second_word (trim l)) rest
    else rest

unfoldable pub parse_route_interface : Text → Option Text
unfolding parse_route_lines lines
parse_route_interface output = parse_route_lines (lines output)

abbrev pub port_of_line : Option Text → Option Text → Option Text
port_of_line current none = current
port_of_line current (some stripped) = some (trim stripped)

-- What a line of `Device:` decides, `none` where the loop goes on.
abbrev pub is_device : Text → Option Text → Option Text → Bool
is_device device (some port) found = false
is_device device none none = false
is_device device none (some stripped) = eqb (trim stripped) device

unfoldable pub parse_port_lines : Text → Option Text → List Text → Option Text
unfolding trim strip_prefix eqb
parse_port_lines device current [] = none
parse_port_lines device current (l ∷ ls) =
    let port = strip_prefix (codes "Hardware Port:") (trim l) in
    let rest = parse_port_lines device (port_of_line current port) ls in
    if is_device device port (strip_prefix (codes "Device:") (trim l)) then current else rest

unfoldable pub parse_hardware_port : Text → Text → Option Text
unfolding parse_port_lines lines
parse_hardware_port output device = parse_port_lines device none (lines output)

unfoldable pub parse_dns_servers : Text → List Text
unfolding trim lines contains_str eqb
parse_dns_servers output =
    let trimmed = trim output in
    if contains_str (codes "There aren't any DNS Servers set") trimmed
      || (is_empty trimmed || eqb trimmed (codes "Empty"))
    then []
    else filter (λ l. not (is_empty l)) (map trim (lines trimmed))

abbrev pub tier3_fallback : List Text
tier3_fallback = codes "8.8.8.8" ∷ codes "1.1.1.1" ∷ []

abbrev pub first_tier : List Text → List Text → List Text × UpstreamTier
first_tier (s ∷ rest) tier2 = (s ∷ rest, networksetup)
first_tier [] (s ∷ rest) = (s ∷ rest, ipconfig)
first_tier [] [] = (tier3_fallback, public_servers)

module _ (A : Type 0) ⦃ip : IpAddr A⦄ ⦃socket : SocketText A⦄ where
  abbrev pub without_local : List Text → List Text
  without_local servers = filter (λ s. not (is_local_resolver A s)) servers

  unfoldable pub select_upstream : List Text → List Text → List Text × UpstreamTier
  unfolding is_local_resolver
  select_upstream tier1 tier2 = first_tier (without_local tier1) (without_local tier2)

  -- `none` is a command that failed.
  unfoldable pub networksetup_get_dns : Option Text → Result PlatformError (List Text)
  unfolding parse_dns_servers is_local_resolver
  networksetup_get_dns none = err command_failed
  networksetup_get_dns (some stdout) = ok (without_local (parse_dns_servers stdout))

  unfoldable pub probe_snapshot_from : Text → Text → SystemDnsSnapshot
  unfolding parse_dns_servers new_snapshot
  probe_snapshot_from interface_name raw_stdout =
      new_snapshot A interface_name (parse_dns_servers raw_stdout)

  unfoldable pub probe_system_dns_state_with :
      Result PlatformError Text
      → (Text → Result PlatformError Text)
      → Result PlatformError SystemDnsSnapshot
  unfolding probe_snapshot_from
  probe_system_dns_state_with resolve_interface read_dns = do
    interface_name ← resolve_interface
    raw_stdout ← read_dns interface_name
    ok (probe_snapshot_from interface_name raw_stdout)

  unfoldable pub any_local_resolver : List Text → Bool
  unfolding is_local_resolver
  any_local_resolver servers = any (λ s. is_local_resolver A s) servers

  -- The interface and what networksetup prints for it are arguments.
  unfoldable pub verify_dns_restored_against_loopback :
      Result PlatformError Text → (Text → Option Text) → Result PlatformError Bool
  unfolding validate_interface_name networksetup_get_dns any_local_resolver
  verify_dns_restored_against_loopback get_interface stdout_of = do
    interface_name ← get_interface
    valid ← validate_interface_name interface_name
    servers ← networksetup_get_dns (stdout_of interface_name)
    ok (not (any_local_resolver servers))
