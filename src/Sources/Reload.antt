-- ===== src/Sources/Reload.antt =====
-- src-tauri/src/commands/adblock.rs: from the cached lists to the rules of the DNS server, and the
-- gate that skips a reload whose input has not changed. `DefaultHasher` is the interface `Hasher`; it
-- gets what is written to it. A set is its elements in the order of their first insertion.
pub mod Gate
use m_host.Common.{
  Text, ℕ, zero, suc, ◌+◌, Bool, true, false, not, ◌&&◌, ◌||◌, Option, none, some, List, [], ◌∷◌,
  ◌++◌, map, ◌≡◌, refl, ap, ◌∙◌, arith, if◌then◌else◌, ◌==◌, leb, any, filter, length, text_leb,
  eqb, Bool-cases, inl, inr, is_some,
}
use m_host.Common.Assoc.{get, put}
use m_host.Common.Result.{Result, ok, err}
use m_host.Common.Sort.{sort_by, insert_by, mem_text}
use m_host.Core.AdBlock.{AdBlockResponse, AdBlockSource, AdBlockState, zero_address, nx_domain}
use m_host.Core.Ip.{IpAddr}
use m_host.Core.Models.{Uuid}
use m_host.Dns.Resolver.{insert_first}
use m_host.Dns.Server.{Lru, Wire, DnsServer, reload_ad_block_rules}
use m_host.Sources.Store.{Root, StoreError, IdText, read_cache}
use m_host.Sources.Whitelist.{Lowercase}
use m_host.Sources.Blocklist.{parse_blocklist_domains}

-- What is written to a hasher.
pub data Written : Type 0 where
  flag : Bool → Written
  count id_of byte number : ℕ → Written
  string : Text → Written

pub record Hasher : Type 0 where
  pub finish : List Written → ℕ

pub record ParsedSource : Type 0 where
  pub content_hash : ℕ
  pub domains : List Text

pub record AdBlockReloadGate : Type 0 where
  pub fingerprint : Option ℕ
  pub parsed : List (Uuid × ParsedSource)

-- A source, the hash of its content, and its domains.
pub record Loaded : Type 0 where
  pub source : AdBlockSource
  pub content_hash : ℕ
  pub domains : List Text

pub record ClassifyInputs : Type 0 where
  pub fingerprint : ℕ
  pub enabled : Bool
  pub sources : List Loaded
  pub whitelist : List Text

abbrev pub same_id : Uuid → Uuid → Bool
same_id x y = x == y

abbrev pub if_hash : ℕ → Option ParsedSource → Option (List Text)
if_hash content_hash none = none
if_hash content_hash (some p) = if p.content_hash == content_hash then some p.domains else none

unfoldable pub cached_domains : Uuid → ℕ → List (Uuid × ParsedSource) → Option (List Text)
unfolding get
cached_domains id content_hash parsed = if_hash content_hash (get same_id id parsed)

abbrev pub retain_sources : List Uuid → List (Uuid × ParsedSource) → List (Uuid × ParsedSource)
retain_sources keep parsed = filter (λ e. any (λ id. id == e.0) keep) parsed

abbrev pub content_or_empty : Result StoreError (Option Text) → Text
content_or_empty (ok (some content)) = content
content_or_empty (ok none) = []
content_or_empty (err e) = []

-- What of a loaded source goes into the fingerprint.
abbrev pub key_of : Loaded → Uuid × AdBlockResponse × ℕ
key_of l = (l.source.source_id, l.source.response, l.content_hash)

abbrev pub response_byte : AdBlockResponse → ℕ
response_byte zero_address = 0
response_byte nx_domain = 1

abbrev pub written_keys : List (Uuid × AdBlockResponse × ℕ) → List Written
written_keys [] = []
written_keys ((id, response, content_hash) ∷ rest) =
    id_of id ∷ byte (response_byte response) ∷ number content_hash ∷ written_keys rest

abbrev pub by_key : Uuid × AdBlockResponse × ℕ → Uuid × AdBlockResponse × ℕ → Bool
by_key x y = leb x.0 y.0

abbrev pub by_id : Loaded → Loaded → Bool
by_id x y = by_key (key_of x) (key_of y)

-- `entry(d).or_insert(ip)` and `insert(d)` for the domains of a list
unfoldable pub add_zero : {A : Type 0} → A → List Text → List (Text × A) → List (Text × A)
unfolding insert_first
add_zero ip [] table = table
add_zero ip (d ∷ ds) table = add_zero ip ds (insert_first d ip table)

unfoldable pub add_names : List Text → List Text → List Text
add_names [] set = set
add_names (d ∷ ds) set = add_names ds (if mem_text d set then set else set ++ d ∷ [])

module _ {A : Type 0} (zero_ip : A) where
  abbrev pub add_loaded :
      AdBlockResponse → List Text → List (Text × A) × List Text → List (Text × A) × List Text
  add_loaded zero_address ds (zero_addr, nxdomain) = (add_zero zero_ip ds zero_addr, nxdomain)
  add_loaded nx_domain ds (zero_addr, nxdomain) = (zero_addr, add_names ds nxdomain)

  unfoldable pub merge_sources :
      List Loaded → List (Text × A) × List Text → List (Text × A) × List Text
  unfolding add_zero add_names
  merge_sources [] sets = sets
  merge_sources (l ∷ ls) sets = merge_sources ls (add_loaded l.source.response l.domains sets)

  unfoldable pub merge_inputs : ClassifyInputs → List (Text × A) × List Text × List Text
  unfolding merge_sources
  merge_inputs inputs =
      let (zero_addr, nxdomain) =
        if inputs.enabled then merge_sources inputs.sources ([], []) else ([], []) in
      (zero_addr, nxdomain, inputs.whitelist)

abbrev pub is_fingerprint : ℕ → Option ℕ → Bool
is_fingerprint n none = false
is_fingerprint n (some m) = m == n

-- Everything that the fingerprint is taken of, in the order it is written.
unfoldable pub fingerprint_input :
    Bool → List (Uuid × AdBlockResponse × ℕ) → List Text → List Written
unfolding sort_by
fingerprint_input enabled keys whitelist =
    flag enabled
    ∷ count (length keys)
    ∷ (written_keys keys ++ count (length whitelist) ∷ map string (sort_by text_leb whitelist))

module _ ⦃hasher : Hasher⦄ where
  unfoldable pub compute_fingerprint : Bool → List Loaded → List Text → ℕ
  unfolding fingerprint_input
  compute_fingerprint enabled sources whitelist =
      hasher.finish (fingerprint_input enabled (map key_of sources) whitelist)

  abbrev pub hash_content : Text → ℕ
  hash_content content = hasher.finish (string content ∷ [])

module _ (A : Type 0) ⦃ip : IpAddr A⦄ ⦃lower : Lowercase⦄ ⦃ids : IdText⦄ ⦃hasher : Hasher⦄ where
  -- The domains of a content, from the parsed ones if their hash is the same, and the parsed ones behind it.
  abbrev pub reuse_or_parse :
      (ℕ → Uuid)
      → Uuid
      → Text
      → Option (List Text)
      → List (Uuid × ParsedSource)
      → List Text × List (Uuid × ParsedSource)
  reuse_or_parse uuids id content (some domains) parsed = (domains, parsed)
  reuse_or_parse uuids id content none parsed =
      let domains = (parse_blocklist_domains A uuids content).domains in
      (
        domains,
        put same_id id (record { content_hash = hash_content content; domains = domains }) parsed,
      )

  -- The loop over the sources.
  unfoldable pub load_sources :
      (ℕ → Uuid)
      → Root
      → List AdBlockSource
      → List (Uuid × ParsedSource)
      → List Loaded × List (Uuid × ParsedSource)
  unfolding read_cache cached_domains put
  load_sources uuids root [] parsed = ([], parsed)
  load_sources uuids root (s ∷ rest) parsed =
      let content = content_or_empty (read_cache s.source_id root) in
      let (domains, grown) =
        reuse_or_parse uuids s.source_id content
          (cached_domains s.source_id (hash_content content) parsed) parsed in
      let (loaded, last_parsed) = load_sources uuids root rest grown in
      (
        record { source = s; content_hash = hash_content content; domains = domains } ∷ loaded,
        last_parsed,
      )

  abbrev pub enabled_sources : AdBlockState → List AdBlockSource
  enabled_sources snap = filter (λ s. s.enabled) snap.sources

  unfoldable pub load_classify_inputs :
      (ℕ → Uuid) → AdBlockState → Root → AdBlockReloadGate → ClassifyInputs × AdBlockReloadGate
  unfolding load_sources sort_by compute_fingerprint add_names
  load_classify_inputs uuids snap root gate =
      let (loaded, parsed) =
        load_sources uuids root (if snap.enabled then enabled_sources snap else []) gate.parsed in
      let sources = sort_by by_id loaded in
      (
        record {
          fingerprint = compute_fingerprint snap.enabled sources snap.whitelist;
          enabled = snap.enabled;
          sources = sources;
          whitelist = add_names snap.whitelist [];
        },
        record gate {
          parsed = retain_sources (map (λ s. s.source_id) (enabled_sources snap)) parsed;
        },
      )

  module _ {C : Type 0} ⦃wire : Wire A⦄ ⦃lru : Lru A C⦄ (zero_ip : A) where
    -- The decision on inputs that are loaded, and the reload.
    abbrev pub decide_reload :
        Bool
        → Bool
        → AdBlockState
        → ClassifyInputs × AdBlockReloadGate
        → DnsServer A C
        → Bool × AdBlockReloadGate × DnsServer A C
    decide_reload force cancelled snap (inputs, gate) server =
        let (zero_addr, nxdomain, whitelist) = merge_inputs zero_ip inputs in
        if not force && is_fingerprint inputs.fingerprint gate.fingerprint
        then (false, gate, server)
        else if cancelled
        then (false, gate, server)
        else (
          true,
          record gate { fingerprint = some inputs.fingerprint },
          reload_ad_block_rules snap.enabled zero_addr nxdomain whitelist server,
        )

    unfoldable pub classify_and_reload :
        (ℕ → Uuid)
        → Bool
        → Bool
        → AdBlockState
        → Root
        → AdBlockReloadGate
        → DnsServer A C
        → Bool × AdBlockReloadGate × DnsServer A C
    unfolding load_classify_inputs merge_inputs reload_ad_block_rules
    classify_and_reload uuids force cancelled snap root gate server =
        decide_reload force cancelled snap (load_classify_inputs uuids snap root gate) server
