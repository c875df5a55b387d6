-- ===== src/Dns/Server.antt =====
-- src-tauri/crates/mhost-dns/src/server.rs: the answer to one request. The message codec, the family
-- of an address, the upstream resolver and the LRU cache of the crate `lru` are parameters. Here a
-- request is handled as a whole; Server/Tasks has the requests in flight. A time is in seconds.
pub mod Coherent
pub mod Answered
pub mod Lifecycle
pub mod Tasks
use m_host.Common.{
  Text, ℕ, ◌+◌, ◌*◌, Bool, true, false, not, ◌&&◌, ◌||◌, Option, none, some, List, [], ◌∷◌, ◌++◌,
  ◌≡◌, ◌≢◌, ◌⊎◌, if◌then◌else◌, ltb, ◌==◌, trim_end_by,
}
use mathlib.Core.Option
use m_host.Core.Models.{Profile}
use m_host.Dns.Resolver.{Table, resolve}
use m_host.Dns.Resolver
use m_host.Dns.AdBlock.{AdBlockEngine, AdBlockAction, return_address, nx_domain, check, set_enabled}
use m_host.Dns.AdBlock

pub data RecordType : Type 0 where
  a aaaa : RecordType
  other_type : ℕ → RecordType

pub data ResponseCode : Type 0 where
  no_error serv_fail nx_domain_code not_imp form_err : ResponseCode

pub record Query : Type 0 where
  pub name : Text
  pub query_type : RecordType

pub record Message : Type 0 where
  pub id : ℕ
  pub is_query : Bool
  pub is_standard : Bool
  pub queries : List Query

pub data RData (A : Type 0) : Type 0 where
  address : A → RData A
  other_data : ℕ → RData A

pub record Record (A : Type 0) : Type 0 where
  pub owner : Text
  pub ttl : ℕ
  pub data_of : RData A

pub record Response (A : Type 0) : Type 0 where
  pub id : ℕ
  pub query : Option Query
  pub code : ResponseCode
  pub answers : List (Record A)

abbrev pub local_rule_ttl : ℕ
local_rule_ttl = 300

pub data QueryResult (A : Type 0) : Type 0 where
  answer : Record A → QueryResult A
  no_records denied failed : QueryResult A

-- What a lookup upstream can give: records, no record of the type, or a failure.
pub data Lookup (A : Type 0) : Type 0 where
  found_records : List (Record A) → Lookup A
  no_records_found lookup_failed : Lookup A

abbrev pub Upstream : Type 0 → Type 0
Upstream A = Text → RecordType → Lookup A

abbrev pub CacheEntry : Type 0 → Type 0
CacheEntry A = List (Record A) × ℕ

-- `LruCache<Box<str>, CacheEntry>`: what the crate documents. A `put` may drop another entry.
pub record Lru (A C : Type 0) : Type 0 where
  pub peek : Text → C → Option (CacheEntry A)
  pub pop : Text → C → C
  pub put : Text → CacheEntry A → C → C
  pub clear : C → C
  pub peek-put : (k : Text) (e : CacheEntry A) (c : C) → peek k (put k e c) ≡ some e
  pub peek-put_ne :
      (j k : Text) (e : CacheEntry A) (c : C)
      → j ≢ k
      → (peek j (put k e c) ≡ none) ⊎ (peek j (put k e c) ≡ peek j c)
  pub peek-pop : (k : Text) (c : C) → peek k (pop k c) ≡ none
  pub peek-pop_ne : (j k : Text) (c : C) → j ≢ k → peek j (pop k c) ≡ peek j c
  pub peek-clear : (k : Text) (c : C) → peek k (clear c) ≡ none

-- `IpAddr::V4` or `IpAddr::V6`, and the codec.
pub record Wire (A : Type 0) : Type 0 where
  pub is_v4 : A → Bool
  pub from_bytes : List ℕ → Option Message
  pub to_bytes : Response A → Option (List ℕ)

pub record DnsServer (A C : Type 0) : Type 0 where
  pub rules : Table A
  pub ad_block : AdBlockEngine A
  pub cache : C

abbrev pub type_byte : RecordType → ℕ
type_byte a = 1
type_byte aaaa = 2
type_byte (other_type n) = 0

abbrev pub is_address_type : RecordType → Bool
is_address_type a = true
is_address_type aaaa = true
is_address_type (other_type n) = false

-- `name.trim_end_matches('.')`
unfoldable pub name_str : Query → Text
unfolding trim_end_by
name_str q = trim_end_by (λ c. c == b'.') q.name

abbrev pub cache_key : Text → RecordType → Text
cache_key name t = name ++ b'|' ∷ type_byte t ∷ []

-- `build_answer_response`, `build_cached_response` and the builders of the other codes
abbrev pub build : {A : Type 0} → Message → Query → ResponseCode → List (Record A) → Response A
build request query code answers = record {
  id = request.id;
  query = some query;
  code = code;
  answers = answers;
}

abbrev pub first_record : {A : Type 0} → List (Record A) → QueryResult A
first_record [] = no_records
first_record (r ∷ rs) = answer r

-- `resolve_upstream_typed`, with what its caller makes of the errors
unfoldable pub resolve_upstream : {A : Type 0} → Lookup A → QueryResult A
resolve_upstream (found_records rs) = first_record rs
resolve_upstream no_records_found = no_records
resolve_upstream lookup_failed = failed

module _ (A : Type 0) ⦃wire : Wire A⦄ where
  -- What the loop of the server sends back. The id of a malformed request is read from its bytes.
  abbrev pub form_error : List ℕ → Option (List ℕ)
  form_error (high ∷ low ∷ rest) =
      wire.to_bytes (record { id = high * 256 + low; query = none; code = form_err; answers = [] })
  form_error _ = none

  abbrev pub or_form_error : List ℕ → Option (List ℕ) → Option (List ℕ)
  or_form_error data_bytes (some bytes) = some bytes
  or_form_error data_bytes none = form_error data_bytes

module _ {A : Type 0} ⦃wire : Wire A⦄ where
  -- `(RecordType::A, IpAddr::V4(_))` and `(RecordType::AAAA, IpAddr::V6(_))`
  abbrev pub fits : RecordType → A → Bool
  fits a ip = wire.is_v4 ip
  fits aaaa ip = not (wire.is_v4 ip)
  fits (other_type n) ip = false

  abbrev pub local_record : Text → A → Record A
  local_record name ip = record { owner = name; ttl = local_rule_ttl; data_of = address ip }

  abbrev pub block_result : Text → RecordType → AdBlockAction A → QueryResult A
  block_result name t nx_domain = denied
  block_result name t (return_address ip) =
      if fits t ip then answer (local_record name ip) else denied

  abbrev pub rule_result : Text → RecordType → A → QueryResult A
  rule_result name t ip = if fits t ip then answer (local_record name ip) else no_records

  abbrev pub after_rules : Text → Text → RecordType → Upstream A → Option A → QueryResult A
  after_rules name owner t upstream (some ip) = rule_result owner t ip
  after_rules name owner t upstream none = resolve_upstream (upstream name t)

  -- The answer, by what the ad-block engine and the rules say.
  abbrev pub after_found :
      Text → Text → RecordType → Upstream A → Option (AdBlockAction A) → Option A → QueryResult A
  after_found name owner t upstream (some action) r = block_result owner t action
  after_found name owner t upstream none r = after_rules name owner t upstream r

  unfoldable pub handle_address_query :
      Text
      → Text
      → RecordType
      → Table A
      → Upstream A
      → AdBlockEngine A
      → QueryResult A × AdBlockEngine A
  unfolding check resolve resolve_upstream
  handle_address_query name owner t rules upstream engine = (
    after_found name owner t upstream (check name engine).0 (resolve name rules),
    (check name engine).1,
  )

  abbrev pub respond_to : Message → Query → QueryResult A → Response A
  respond_to request query (answer r) = build request query no_error (r ∷ [])
  respond_to request query no_records = build request query no_error []
  respond_to request query denied = build request query nx_domain_code []
  respond_to request query failed = build request query serv_fail []

  module _ {C : Type 0} ⦃lru : Lru A C⦄ where
    -- A live entry, and the cache without the entry if it has expired.
    abbrev pub live_entry : ℕ → Text → C → Option (CacheEntry A) → Option (List (Record A)) × C
    live_entry now key cache none = (none, cache)
    live_entry now key cache (some (records, expires_at)) =
        if ltb now expires_at then (some records, cache) else (none, lru.pop key cache)

    -- A TTL of 0 is not cached.
    abbrev pub remember : ℕ → Text → QueryResult A → C → C
    remember now key (answer r) cache =
        if ltb 0 r.ttl then lru.put key (r ∷ [], now + r.ttl) cache else cache
    remember now key no_records cache = cache
    remember now key denied cache = cache
    remember now key failed cache = cache

    unfoldable pub handle_miss :
        Upstream A → ℕ → Message → Query → DnsServer A C → DnsServer A C × Response A
    unfolding handle_address_query name_str
    handle_miss upstream now request query s =
        let name = name_str query in
        let (result, engine) =
          handle_address_query name query.name query.query_type s.rules upstream s.ad_block in
        if is_address_type query.query_type
        then (
          record s {
            ad_block = engine;
            cache = remember now (cache_key name query.query_type) result s.cache;
          },
          respond_to request query result,
        )
        else (s, build request query not_imp [])

    abbrev pub after_peek :
        Upstream A
        → ℕ
        → Message
        → Query
        → DnsServer A C
        → Option (List (Record A)) × C
        → DnsServer A C × Response A
    after_peek upstream now request query s (some records, cache) =
        (record s { cache = cache }, build request query no_error records)
    after_peek upstream now request query s (none, cache) =
        handle_miss upstream now request query (record s { cache = cache })

    unfoldable pub handle_query :
        Upstream A → ℕ → Message → Query → DnsServer A C → DnsServer A C × Response A
    unfolding handle_miss name_str
    handle_query upstream now request query s =
        let key = cache_key (name_str query) query.query_type in
        after_peek upstream now request query s (live_entry now key s.cache (lru.peek key s.cache))

    abbrev pub handle_first :
        Upstream A → ℕ → Message → List Query → DnsServer A C → DnsServer A C × Option (List ℕ)
    handle_first upstream now request [] s = (s, none)
    handle_first upstream now request (query ∷ queries) s =
        let (s', r) = handle_query upstream now request query s in (s', wire.to_bytes r)

    abbrev pub handle_decoded :
        Upstream A → ℕ → Option Message → DnsServer A C → DnsServer A C × Option (List ℕ)
    handle_decoded upstream now none s = (s, none)
    handle_decoded upstream now (some request) s =
        if request.is_query && request.is_standard
        then handle_first upstream now request request.queries s
        else (s, none)

    unfoldable pub handle_dns_request :
        Upstream A → ℕ → List ℕ → DnsServer A C → DnsServer A C × Option (List ℕ)
    unfolding handle_query
    handle_dns_request upstream now data_bytes s =
        handle_decoded upstream now (wire.from_bytes data_bytes) s

    unfoldable pub reload_rules : List (Profile A) → DnsServer A C → DnsServer A C
    unfolding Resolver.rebuild
    reload_rules profiles s = record s {
      rules = Resolver.rebuild profiles;
      cache = lru.clear s.cache;
    }

    unfoldable pub reload_ad_block_rules :
        Bool → List (Text × A) → List Text → List Text → DnsServer A C → DnsServer A C
    unfolding AdBlock.rebuild
    reload_ad_block_rules enabled zero_addr nxdomain whitelist s = record s {
      ad_block = AdBlock.rebuild zero_addr nxdomain whitelist (set_enabled enabled s.ad_block);
      cache = lru.clear s.cache;
    }
