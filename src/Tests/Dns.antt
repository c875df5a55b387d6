-- ===== src/Tests/Dns.antt =====
-- Runs of the trie, the rule engine and the ad-block engine.
use m_host.Common.{
  Text, ℕ, ◌+◌, true, false, some, List, [], ◌∷◌, codes, ◌≡◌, refl, is_some, is_empty, arith,
  rsplit_once, eqb, if◌then◌else◌, ◌&&◌, ◌||◌,
}
use m_host.Core.Models.{Profile, dns, new_rule, new_profile}
use m_host.Dns.Labels.{last_label, right_labels, labels_of, buffered, collect_labels, push_label}
use m_host.Dns.Labels.Fuel.{labels_of-unfolds}
use m_host.Dns.Trie.{
  find_from, get_child, insert_at, put_child, TrieNode, new, insert, find_longest_suffix_match,
}
use m_host.Dns.Trie.Lookup.{get_at, longest, find_longest_suffix_match-eq-longest}
use m_host.Dns.Resolver.{get, active_profiles, rebuild}
use m_host.Dns.Resolver.FirstWins.{entries_of, get-rebuild}
use m_host.Dns.AdBlock.{AdBlockEngine, new_engine, set_enabled, check, has_block_rules}
use m_host.Dns.AdBlock.Counters.{
  HasRoom, counted, is_whitelisted, answer, check-counted, check-answer,
}
use m_host.Tests.Addresses.{Address, zero_address, local_address}

abbrev trie : TrieNode ℕ
trie = insert (codes "ads.com") 1 (insert (codes "com") 2 new)

abbrev query : Text
query = codes "x.ads.com"

find_longest_suffix_match-eq-longest_example :
    find_longest_suffix_match trie query ≡ longest (λ p. get_at p trie) (right_labels query)
find_longest_suffix_match-eq-longest_example = find_longest_suffix_match-eq-longest trie query

abbrev profiles : List (Profile Address)
profiles =
    record (new_profile 1 0 (codes "b")) {
      enabled = true;
      mode = dns;
      rules = new_rule 5 zero_address (codes "ads.com" ∷ []) ∷ [];
    }
    ∷ record (new_profile 2 0 (codes "a")) {
      enabled = true;
      mode = dns;
      rules = new_rule 6 local_address (codes "ads.com" ∷ []) ∷ [];
    }
    ∷ []

get-rebuild_example :
    get (codes "ads.com") (rebuild profiles)
    ≡ get (codes "ads.com") (entries_of (active_profiles profiles))
get-rebuild_example = get-rebuild profiles (codes "ads.com")

abbrev engine : AdBlockEngine Address
engine =
    set_enabled true
      (m_host.Dns.AdBlock.rebuild ((codes "ads.com", zero_address) ∷ []) [] [] new_engine)

engine-HasRoom : HasRoom engine.counters
unfolding new_engine m_host.Dns.AdBlock.rebuild
engine-HasRoom = record {
  zero_addr = omega arith;
  nxdomain = omega arith;
  whitelist = omega arith;
  miss = omega arith;
}

check-counted_example :
    counted (check query engine).1.counters
    ≡ (if engine.enabled && (is_whitelisted query engine || has_block_rules engine.current)
        then 1
        else 0)
      + counted engine.counters
check-counted_example = check-counted query engine engine-HasRoom

check-answer_example :
    (check query engine).0
    ≡ answer engine.enabled
        (is_whitelisted query engine)
        (is_some (find_longest_suffix_match engine.current.nxdomain query))
        (find_longest_suffix_match engine.current.zero_addr query)
check-answer_example = check-answer query engine

-- A rule with two dots in a row covers the whole of its last label.
double_dot :
    find_longest_suffix_match {V = ℕ} (insert (codes "a..com") 1 new) (codes "b.com") ≡ some 1
unfolding insert find_longest_suffix_match find_from last_label rsplit_once get_child labels_of
    buffered collect_labels push_label insert_at put_child eqb
double_dot = refl

ends_in_label : is_empty (last_label query).0 ≡ false
unfolding last_label rsplit_once
ends_in_label = refl

labels_of-unfolds_example : labels_of query ≡ (last_label query).0 ∷ labels_of (last_label query).1
labels_of-unfolds_example = labels_of-unfolds query ends_in_label
