-- ===== src/Tests/Reload.antt =====
-- Runs of the hot reload, with a hash that adds up what it gets.
use m_host.Common.{ℕ, ◌+◌, Bool, true, false, not, List, [], ◌∷◌, none, ◌==◌, ◌≡◌, refl}
use m_host.Core.AdBlock.{AdBlockState}
use m_host.Core.Models.{Uuid}
use m_host.Dns.Server.{DnsServer}
use m_host.Sources.Reload.{
  Written, flag, count, id_of, byte, number, string, Hasher, AdBlockReloadGate, classify_and_reload,
}
use m_host.Sources.Reload.Gate.{input_hash, classify_and_reload-again}
use m_host.Tests.Addresses.{Address, test_addresses, local_address}
use m_host.Tests.Servers.{Cache, test_lru, test_wire, server}
use m_host.Tests.Sources.{test_lowercase, test_ids, with_source, swept}

abbrev pub weight : Written → ℕ
weight (flag true) = 1
weight (flag false) = 2
weight (count n) = n + 3
weight (id_of n) = n + 5
weight (byte n) = n + 7
weight (number n) = n + 11
weight (string []) = 13
weight (string (c ∷ cs)) = c + 17

abbrev pub total : List Written → ℕ
total [] = 0
total (w ∷ ws) = weight w + (total ws + total ws)

instance abbrev pub test_hasher : Hasher
test_hasher = record { finish = total }

abbrev pub empty_gate : AdBlockReloadGate
empty_gate = record { fingerprint = none; parsed = [] }

abbrev pub uuids : ℕ → Uuid
uuids n = n

abbrev enabled : AdBlockState
enabled = record with_source { enabled = true }

abbrev first : Bool × AdBlockReloadGate × DnsServer Address Cache
first = classify_and_reload Address local_address uuids true false enabled swept empty_gate server

forced : first.0 ≡ true
unfolding classify_and_reload
forced = refl

classify_and_reload-again_example :
    let again =
      classify_and_reload Address local_address uuids false false enabled swept first.1 first.2 in
    ((input_hash swept enabled == input_hash swept enabled) ≡ true → again.2 ≡ first.2)
    × again.0 ≡ not (input_hash swept enabled == input_hash swept enabled)
classify_and_reload-again_example =
    classify_and_reload-again Address local_address uuids true false enabled enabled swept swept
      empty_gate server forced
