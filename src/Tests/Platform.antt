-- ===== src/Tests/Platform.antt =====
-- Runs of the platform layer, with socket addresses that have no port.
use m_host.Common.{Text, false, List, [], ◌∷◌, none, codes, ◌≡◌, ◌≢◌, refl, eqb, some}
use m_host.Core.OriginalDns.{
  SocketText, OriginalDns, manual_servers, is_local_resolver, restore_argv,
}
use m_host.Platform.Resolvers.{select_upstream, any_local_resolver, tier3_fallback}
use m_host.Platform.Shell.{shell_single_quote, outside, read_word, read_word-shell_single_quote}
use m_host.Platform.Upstream.{select_upstream-public}
use m_host.Tests.Addresses.{Address, test_addresses, read}

instance abbrev test_sockets : SocketText Address
test_sockets = record { ip_of_socket = λ t. none }

fallback_not_local : any_local_resolver Address tier3_fallback ≡ false
unfolding any_local_resolver is_local_resolver read eqb
fallback_not_local = refl

abbrev reported : List Text
reported = codes "127.0.0.1" ∷ []

select_upstream-public_example :
    ((select_upstream Address reported []).0 ≢ [])
    × (any_local_resolver Address (select_upstream Address reported []).0 ≡ false)
select_upstream-public_example = select_upstream-public Address fallback_not_local reported []

abbrev captured : OriginalDns
captured = manual_servers (codes "127.0.0.1" ∷ codes "8.8.8.8" ∷ [])

restored : restore_argv Address captured ≡ codes "8.8.8.8" ∷ []
unfolding restore_argv is_local_resolver read eqb
restored = refl

read_word-shell_single_quote_example :
    read_word outside (shell_single_quote (codes "it's; rm")) ≡ some (codes "it's; rm")
read_word-shell_single_quote_example = read_word-shell_single_quote (codes "it's; rm")
