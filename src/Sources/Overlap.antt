-- ===== src/Sources/Overlap.antt =====
-- src-tauri/src/commands/adblock.rs: the reports on the domains that several enabled sources block.
-- The map from a domain to the sources that cover it is a list in the order of insertion.
pub mod Totals
use m_host.Common.{
  Text, ℕ, zero, suc, ◌+◌, Bool, true, false, not, ◌&&◌, Option, none, some, List, [], ◌∷◌, ◌++◌,
  map, filter, length, any, if◌then◌else◌, ◌==◌, ltb, leb, eqb, is_some, get_elem?, take, text_leb,
}
use m_host.Common.Sort.{sort_by}
use m_host.Core.AdBlock.{AdBlockResponse, AdBlockSource, AdBlockState, nx_domain, zero_address}
use m_host.Core.Ip.{IpAddr}
use m_host.Core.Models.{Uuid}
use m_host.Dns.Trie.{TrieNode, new, insert, find_longest_suffix_match}
use m_host.Sources.Reload.{
  Hasher, ParsedSource, AdBlockReloadGate, cached_domains, content_or_empty, hash_content,
  reuse_or_parse,
}
use m_host.Sources.Store.{Root, IdText, read_cache}
use m_host.Sources.Whitelist.{Lowercase}

pub record OverlapSummary : Type 0 where
  pub source_id : Uuid
  pub source_name : Text
  pub overlapping_domain_count : ℕ

pub record OverlapSourceRef : Type 0 where
  pub source_id : Uuid
  pub name : Text
  pub response : AdBlockResponse

pub data Effective : Type 0 where
  whitelisted blocked_nx_domain blocked_zero_address : Effective

pub record OverlapEntry : Type 0 where
  pub domain : Text
  pub covered_by : List OverlapSourceRef
  pub effective : Effective

pub record AdBlockOverlapDetails : Type 0 where
  pub source_id : Uuid
  pub total : ℕ
  pub truncated : Bool
  pub entries : List OverlapEntry

abbrev pub max_overlap_details_per_source : ℕ
max_overlap_details_per_source = 500

abbrev pub mem : ℕ → List ℕ → Bool
mem i covering = any (λ j. j == i) covering

abbrev pub push_new : ℕ → List ℕ → List ℕ
push_new idx bucket = if mem idx bucket then bucket else bucket ++ idx ∷ []

-- `entry(d).or_default()`, and the index where the bucket does not have it yet
unfoldable pub cover : ℕ → Text → List (Text × List ℕ) → List (Text × List ℕ)
cover idx d [] = (d, idx ∷ []) ∷ []
cover idx d ((k, bucket) ∷ rest) =
    let later = cover idx d rest in
    if eqb k d then (k, push_new idx bucket) ∷ rest else (k, bucket) ∷ later

unfoldable pub cover_domains : ℕ → List Text → List (Text × List ℕ) → List (Text × List ℕ)
unfolding cover
cover_domains idx [] table = table
cover_domains idx (d ∷ ds) table = cover_domains idx ds (cover idx d table)

unfoldable pub by_domain : List (ℕ × List Text) → List (Text × List ℕ) → List (Text × List ℕ)
unfolding cover_domains
by_domain [] table = table
by_domain ((idx, ds) ∷ rest) table = by_domain rest (cover_domains idx ds table)

-- `counts[idx] += 1`
unfoldable pub bump : ℕ → List ℕ → List ℕ
bump idx [] = []
bump zero (n ∷ ns) = (n + 1) ∷ ns
bump (suc idx) (n ∷ ns) = n ∷ bump idx ns

unfoldable pub bump_all : List ℕ → List ℕ → List ℕ
unfolding bump
bump_all [] counts = counts
bump_all (idx ∷ covering) counts = bump_all covering (bump idx counts)

unfoldable pub tally : List (Text × List ℕ) → List ℕ → List ℕ
unfolding bump_all
tally [] counts = counts
tally ((d, covering) ∷ rest) counts =
    tally rest (if ltb (length covering) 2 then counts else bump_all covering counts)

-- `counts[idx]`
unfoldable pub count_at : ℕ → List ℕ → ℕ
count_at idx [] = 0
count_at zero (n ∷ ns) = n
count_at (suc idx) (n ∷ ns) = count_at idx ns

unfoldable pub zeros : List AdBlockSource → List ℕ
zeros [] = []
zeros (s ∷ ss) = 0 ∷ zeros ss

unfoldable pub summaries : List ℕ → ℕ → List AdBlockSource → List OverlapSummary
unfolding count_at
summaries counts idx [] = []
summaries counts idx (s ∷ ss) =
    let rest = summaries counts (idx + 1) ss in
    if s.enabled
    then record {
      source_id = s.source_id;
      source_name = s.name;
      overlapping_domain_count = count_at idx counts;
    }
      ∷ rest
    else rest

-- `position` of the enabled source with the id, counted from `idx`
unfoldable pub enabled_position : Uuid → ℕ → List AdBlockSource → Option ℕ
enabled_position id idx [] = none
enabled_position id idx (s ∷ ss) =
    let rest = enabled_position id (idx + 1) ss in
    if s.enabled && s.source_id == id then some idx else rest

abbrev pub overlaps : ℕ → Text × List ℕ → Bool
overlaps idx (d, covering) = leb 2 (length covering) && mem idx covering

abbrev pub by_name : Text × List ℕ → Text × List ℕ → Bool
by_name x y = text_leb x.0 y.0

unfoldable pub insert_entries : List Text → TrieNode Unit → TrieNode Unit
unfolding insert
insert_entries [] trie = trie
insert_entries (entry ∷ entries) trie = insert_entries entries (insert entry tt trie)

abbrev pub build_whitelist_matcher : AdBlockState → TrieNode Unit
build_whitelist_matcher state = insert_entries state.whitelist new

abbrev pub response_of : Option AdBlockSource → AdBlockResponse
response_of none = zero_address
response_of (some s) = s.response

abbrev pub is_nx_domain : AdBlockResponse → Bool
is_nx_domain nx_domain = true
is_nx_domain zero_address = false

abbrev pub refs_of : Option AdBlockSource → List OverlapSourceRef → List OverlapSourceRef
refs_of none rest = rest
refs_of (some s) rest =
    record { source_id = s.source_id; name = s.name; response = s.response } ∷ rest

-- The other sources that cover a domain.
unfoldable pub covered_by : List AdBlockSource → ℕ → List ℕ → List OverlapSourceRef
covered_by sources idx [] = []
covered_by sources idx (i ∷ covering) =
    let rest = covered_by sources idx covering in
    if i == idx then rest else refs_of (get_elem? sources i) rest

unfoldable pub effective_of : TrieNode Unit → List AdBlockSource → Text → List ℕ → Effective
unfolding find_longest_suffix_match
effective_of whitelist sources domain covering =
    if is_some (find_longest_suffix_match whitelist domain)
    then whitelisted
    else if any (λ i. is_nx_domain (response_of (get_elem? sources i))) covering
    then blocked_nx_domain
    else blocked_zero_address

unfoldable pub entry_of : TrieNode Unit → List AdBlockSource → ℕ → Text × List ℕ → OverlapEntry
unfolding covered_by effective_of
entry_of whitelist sources idx (domain, covering) = record {
  domain = domain;
  covered_by = covered_by sources idx covering;
  effective = effective_of whitelist sources domain covering;
}

unfoldable pub matching : ℕ → List (Text × List ℕ) → List (Text × List ℕ)
unfolding sort_by
matching idx table = sort_by by_name (filter (overlaps idx) table)

-- The details of a source at its index, from the table.
unfoldable pub details_at :
    AdBlockState → Uuid → Option ℕ → List (Text × List ℕ) → AdBlockOverlapDetails
unfolding matching entry_of insert_entries
details_at state id none table = record {
  source_id = id;
  total = 0;
  truncated = false;
  entries = [];
}
details_at state id (some idx) table =
    let found = matching idx table in
    record {
      source_id = id;
      total = length found;
      truncated = ltb max_overlap_details_per_source (length found);
      entries =
          map (entry_of (build_whitelist_matcher state) state.sources idx)
            (take max_overlap_details_per_source found);
    }

module _ (A : Type 0) ⦃ip : IpAddr A⦄ ⦃lower : Lowercase⦄ ⦃ids : IdText⦄ ⦃hasher : Hasher⦄ where
  -- The loop over the sources, from the index `idx`, and the parsed ones behind it.
  unfoldable pub load_enabled_from :
      (ℕ → Uuid)
      → Root
      → ℕ
      → List AdBlockSource
      → List (Uuid × ParsedSource)
      → List (ℕ × List Text) × List (Uuid × ParsedSource)
  unfolding read_cache cached_domains
  load_enabled_from uuids root idx [] parsed = ([], parsed)
  load_enabled_from uuids root idx (s ∷ rest) parsed =
      let content = content_or_empty (read_cache s.source_id root) in
      let (domains, grown) =
        reuse_or_parse A uuids s.source_id content
          (cached_domains s.source_id (hash_content content) parsed) parsed in
      let skipped = load_enabled_from uuids root (idx + 1) rest parsed in
      let (loaded, last_parsed) = load_enabled_from uuids root (idx + 1) rest grown in
      if s.enabled then ((idx, domains) ∷ loaded, last_parsed) else skipped

  abbrev pub load_enabled_source_domains :
      (ℕ → Uuid)
      → AdBlockState
      → Root
      → AdBlockReloadGate
      → List (ℕ × List Text) × AdBlockReloadGate
  load_enabled_source_domains uuids state root gate =
      let (loaded, parsed) = load_enabled_from uuids root 0 state.sources gate.parsed in
      (loaded, record gate { parsed = parsed })

  unfoldable pub compute_overlap_report :
      (ℕ → Uuid) → AdBlockState → Root → AdBlockReloadGate → List OverlapSummary × AdBlockReloadGate
  unfolding load_enabled_from by_domain tally zeros summaries
  compute_overlap_report uuids state root gate =
      let (loaded, grown) = load_enabled_source_domains uuids state root gate in
      let counts = tally (by_domain loaded []) (zeros state.sources) in
      (summaries counts 0 state.sources, grown)

  -- A source that is unknown or not enabled ends it before the caches are read.
  unfoldable pub compute_overlap_details :
      (ℕ → Uuid)
      → AdBlockState
      → Root
      → AdBlockReloadGate
      → Uuid
      → AdBlockOverlapDetails × AdBlockReloadGate
  unfolding enabled_position load_enabled_from by_domain details_at
  compute_overlap_details uuids state root gate id =
      let position = enabled_position id 0 state.sources in
      let (loaded, grown) = load_enabled_source_domains uuids state root gate in
      (details_at state id position (by_domain loaded []), if is_some position then grown else gate)
