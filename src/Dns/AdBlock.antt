-- ===== src/Dns/AdBlock.antt =====
-- src-tauri/crates/mhost-dns/src/adblock.rs. An engine is a value: a publication of rules replaces
-- the snapshot whole, and a counter is a 64-bit number that wraps. The maps and sets that `rebuild`
-- takes are lists of their entries, in the order in which they are visited.
pub mod Counters
use m_host.Common.{
  Text, ℕ, zero, suc, ◌+◌, Bool, true, false, ◌||◌, not, Option, none, some, List, [], ◌∷◌,
  if◌then◌else◌, is_some,
}
use m_host.Dns.Trie.{TrieNode, new, insert, find_longest_suffix_match, is_empty_trie, len}
use Prim.Native.Nat.{◌%◌, ◌^◌}

pub data AdBlockAction (A : Type 0) : Type 0 where
  return_address : A → AdBlockAction A
  nx_domain : AdBlockAction A

pub record RulesSnapshot (A : Type 0) : Type 0 where
  pub zero_addr : TrieNode A
  pub nxdomain : TrieNode Unit
  pub whitelist : TrieNode Unit

pub record AdBlockStats : Type 0 where
  pub hits_zero_addr : ℕ
  pub hits_nxdomain : ℕ
  pub hits_whitelist : ℕ
  pub misses : ℕ

pub record AdBlockEngine (A : Type 0) : Type 0 where
  pub current : RulesSnapshot A
  pub enabled : Bool
  pub counters : AdBlockStats

-- `fetch_add(1, Ordering::Relaxed)` on an `AtomicU64`
unfoldable pub fetch_add : ℕ → ℕ
fetch_add n = (n + 1) % 2 ^ 64

unfoldable pub trie_of : {V : Type 0} → List (Text × V) → TrieNode V → TrieNode V
trie_of [] trie = trie
trie_of ((domain, value) ∷ rest) trie = trie_of rest (insert domain value trie)

unfoldable pub set_trie : List Text → TrieNode Unit → TrieNode Unit
set_trie [] trie = trie
set_trie (domain ∷ rest) trie = set_trie rest (insert domain tt trie)

module _ {A : Type 0} where
  unfoldable pub has_block_rules : RulesSnapshot A → Bool
  has_block_rules s = not (is_empty_trie s.zero_addr) || not (is_empty_trie s.nxdomain)

  unfoldable pub total : RulesSnapshot A → ℕ
  total s = len s.zero_addr + len s.nxdomain + len s.whitelist

  unfoldable pub new_engine : AdBlockEngine A
  new_engine = record {
    current = record { zero_addr = new; nxdomain = new; whitelist = new };
    enabled = false;
    counters = record { hits_zero_addr = 0; hits_nxdomain = 0; hits_whitelist = 0; misses = 0 };
  }

  abbrev pub set_enabled : Bool → AdBlockEngine A → AdBlockEngine A
  set_enabled on e = record e { enabled = on }

  unfoldable pub rebuild :
      List (Text × A) → List Text → List Text → AdBlockEngine A → AdBlockEngine A
  unfolding trie_of set_trie
  rebuild zero_addr_rules nxdomain_rules whitelist e = record e {
    current = record {
      zero_addr = trie_of zero_addr_rules new;
      nxdomain = set_trie nxdomain_rules new;
      whitelist = set_trie whitelist new;
    };
  }

  -- The returns of `check`, by the tests in their order: the switch, the whitelist, whether a rule
  -- can block, and the two block sets.
  unfoldable pub respond :
      Bool
      → Bool
      → Bool
      → Bool
      → Option A
      → AdBlockEngine A
      → Option (AdBlockAction A) × AdBlockEngine A
  unfolding fetch_add
  respond false _ _ _ _ e = (none, e)
  respond true true _ _ _ e = (
    none,
    record e {
      counters = record e.counters { hits_whitelist = fetch_add e.counters.hits_whitelist };
    },
  )
  respond true false false _ _ e = (none, e)
  respond true false true true _ e = (
    some nx_domain,
    record e {
      counters = record e.counters { hits_nxdomain = fetch_add e.counters.hits_nxdomain };
    },
  )
  respond true false true false (some ip) e = (
    some (return_address ip),
    record e {
      counters = record e.counters { hits_zero_addr = fetch_add e.counters.hits_zero_addr };
    },
  )
  respond true false true false none e =
      (none, record e { counters = record e.counters { misses = fetch_add e.counters.misses } })

  unfoldable pub check : Text → AdBlockEngine A → Option (AdBlockAction A) × AdBlockEngine A
  unfolding respond has_block_rules
  check domain e =
      respond e.enabled (is_some (find_longest_suffix_match e.current.whitelist domain))
        (has_block_rules e.current) (is_some (find_longest_suffix_match e.current.nxdomain domain))
        (find_longest_suffix_match e.current.zero_addr domain) e

  abbrev pub rule_count : AdBlockEngine A → ℕ
  rule_count e = total e.current

  abbrev pub stats : AdBlockEngine A → AdBlockStats
  stats e = e.counters
