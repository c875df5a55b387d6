-- ===== src/Dns/AdBlock/Counters.antt =====
-- What a query does to the ad-block engine: its answer and its counters.
use m_host.Common.{
  Text, ℕ, suc, ◌+◌, ◌<◌, Bool, true, false, ◌&&◌, ◌||◌, Option, none, some, is_some, ◌≡◌, refl, ap,
  arith, if◌then◌else◌, not,
}
use mathlib.Core.Option
use m_host.Dns.Trie.{find_longest_suffix_match}
use m_host.Dns.Trie.Lookup.{find-is_empty_trie}
use m_host.Dns.AdBlock.{
  AdBlockEngine, AdBlockStats, AdBlockAction, RulesSnapshot, check, respond, fetch_add,
  has_block_rules, return_address, nx_domain,
}
use Prim.Native.Nat.{◌^◌}

abbrev pub counted : AdBlockStats → ℕ
counted n = n.hits_zero_addr + n.hits_nxdomain + n.hits_whitelist + n.misses

-- No counter is at the end of its range.
pub record HasRoom (n : AdBlockStats) : Type 0 where
  pub zero_addr : n.hits_zero_addr + 1 < 2 ^ 64
  pub nxdomain : n.hits_nxdomain + 1 < 2 ^ 64
  pub whitelist : n.hits_whitelist + 1 < 2 ^ 64
  pub miss : n.misses + 1 < 2 ^ 64

fetch_add-small : (n : ℕ) → n + 1 < 2 ^ 64 → fetch_add n ≡ suc n
unfolding fetch_add
fetch_add-small n h = omega (arith, h)

module _ {A : Type 0} where
  abbrev pub is_whitelisted : Text → AdBlockEngine A → Bool
  is_whitelisted domain e = is_some (find_longest_suffix_match e.current.whitelist domain)

  respond-counted :
      (on listed armed nx : Bool) (zero : Option A) (e : AdBlockEngine A)
      → HasRoom e.counters
      → counted (respond on listed armed nx zero e).1.counters
        ≡ (if on && (listed || armed) then 1 else 0) + counted e.counters
  unfolding respond
  respond-counted false listed armed nx zero e h = omega arith
  respond-counted true true armed nx zero e h =
      omega (arith, fetch_add-small e.counters.hits_whitelist h.whitelist)
  respond-counted true false false nx zero e h = omega arith
  respond-counted true false true true zero e h =
      omega (arith, fetch_add-small e.counters.hits_nxdomain h.nxdomain)
  respond-counted true false true false (some ip) e h =
      omega (arith, fetch_add-small e.counters.hits_zero_addr h.zero_addr)
  respond-counted true false true false none e h =
      omega (arith, fetch_add-small e.counters.misses h.miss)

  -- While no counter is at the end of its range, a query raises the sum of the four counters by one
  -- when the switch is on and the domain is whitelisted or some block rule is loaded, and leaves the
  -- sum as it is otherwise.
  pub check-counted :
      (domain : Text) (e : AdBlockEngine A)
      → HasRoom e.counters
      → counted (check domain e).1.counters
        ≡ (if e.enabled && (is_whitelisted domain e || has_block_rules e.current) then 1 else 0)
          + counted e.counters
  unfolding check
  check-counted domain e h =
      respond-counted e.enabled (is_whitelisted domain e) (has_block_rules e.current)
        (is_some (find_longest_suffix_match e.current.nxdomain domain))
        (find_longest_suffix_match e.current.zero_addr domain) e h

  -- The answer that the rule sets call for, with no short cut.
  unfoldable pub answer : Bool → Bool → Bool → Option A → Option (AdBlockAction A)
  answer on listed nx zero =
      if on && not listed
      then (if nx then some nx_domain else Option.map return_address zero)
      else none

  respond-answer :
      (on listed armed nx : Bool) (zero : Option A) (e : AdBlockEngine A)
      → (armed ≡ false → (nx ≡ false) × (zero ≡ none))
      → (respond on listed armed nx zero e).0 ≡ answer on listed nx zero
  unfolding respond answer
  respond-answer false listed armed nx zero e h = refl
  respond-answer true true armed nx zero e h = refl
  respond-answer true false false nx zero e h = rw ((h refl).0, (h refl).1) refl
  respond-answer true false true true zero e h = refl
  respond-answer true false true false (some ip) e h = refl
  respond-answer true false true false none e h = refl

  unarmed :
      (domain : Text) (s : RulesSnapshot A)
      → has_block_rules s ≡ false
      → (is_some (find_longest_suffix_match s.nxdomain domain) ≡ false)
        × (find_longest_suffix_match s.zero_addr domain ≡ none)
  unfolding has_block_rules
  unarmed domain s h = (
    ap is_some (find-is_empty_trie s.nxdomain domain (ground (arith, h))),
    find-is_empty_trie s.zero_addr domain (ground (arith, h)),
  )

  -- For any domain and engine, a query answers with NXDOMAIN when the switch is on, the whitelist
  -- covers no suffix of the domain and the NXDOMAIN set covers one, with the address of the longest
  -- covering rule of the zero-address set when only that set covers one, and with nothing otherwise.
  pub check-answer :
      (domain : Text) (e : AdBlockEngine A)
      → (check domain e).0
        ≡ answer e.enabled
            (is_whitelisted domain e)
            (is_some (find_longest_suffix_match e.current.nxdomain domain))
            (find_longest_suffix_match e.current.zero_addr domain)
  unfolding check
  check-answer domain e =
      respond-answer e.enabled (is_whitelisted domain e) (has_block_rules e.current)
        (is_some (find_longest_suffix_match e.current.nxdomain domain))
        (find_longest_suffix_match e.current.zero_addr domain) e (unarmed domain e.current)
