-- ===== src/Sources/Fetch.antt =====
-- src-tauri/src/commands/adblock.rs: one refresh of a source. The gate of a source runs its
-- refreshes one after another, so a refresh is a function of the state and the disk. The HTTP agent,
-- UTF-8 decoding and the date of a header are the interface `Net`; `Messages` holds the texts that
-- the program shows for an error or a warning.
pub mod Outcome
use m_host.Common.{
  Text, ℕ, ◌*◌, Bool, true, false, not, ◌&&◌, ◌||◌, Option, none, some, List, [], ◌∷◌, map, ◌≡◌,
  if◌then◌else◌, ltb, leb, ◌==◌, is_empty, is_some, length, eqb,
}
use mathlib.Core.Option
use m_host.Common.Assoc.{get}
use m_host.Common.Result.{Result, ok, err, map_err, ◌>>=◌}
use m_host.Core.AdBlock.{BlocklistFormat, hosts_format, domains_format, AdBlockSource, AdBlockState}
use m_host.Core.Ip.{IpAddr}
use m_host.Core.Models.{Uuid}
use m_host.Sources.Store.{
  Root, StoreError, IdText, cache_path, write_cache, find_source, update_source,
}
use m_host.Sources.Whitelist.{Lowercase}
use m_host.Sources.Blocklist.{
  BlocklistParse, Warning, parse_error_warning, canon, parse_domains_blocklist,
  parse_blocklist_domains,
}

abbrev pub max_rules_per_source : ℕ
max_rules_per_source = 500_000

abbrev pub max_response_bytes : ℕ
max_response_bytes = 64 * 1024 * 1024

pub record Request : Type 0 where
  pub url : Text
  pub if_none_match : Option Text
  pub if_modified_since : Option Text

-- `streamed` is what the server sends as a body, `none` where reading it fails.
pub record Response : Type 0 where
  pub status : ℕ
  pub etag : Option Text
  pub content_length : Option ℕ
  pub streamed : Option (List ℕ)

pub data Reply : Type 0 where
  status_code unreachable : Reply
  response : Response → Reply

-- `call i` is the answer to the request that is made as number `i` of a refresh.
pub record Net : Type 0 where
  pub call : ℕ → Request → Reply
  pub from_utf8 : List ℕ → Option Text
  pub rfc7231_date : ℕ → Text

pub data FetchError : Type 0 where
  refused_status read_failed not_utf8 unreachable_host : FetchError
  http_status body_too_long nothing_parsed : ℕ → FetchError
  over_limit : ℕ → ℕ → FetchError
  source_not_found uncached_not_modified : Uuid → FetchError
  store_failed : StoreError → FetchError

pub record Messages : Type 0 where
  pub of_error : FetchError → Text
  pub of_warning : Warning → Text

pub data FetchOutcome : Type 0 where
  fresh_body : List ℕ → Option Text → FetchOutcome
  not_modified : FetchOutcome

abbrev pub is_too_long : Option ℕ → Bool
is_too_long none = false
is_too_long (some n) = ltb max_response_bytes n

-- `read_to_vec` below the limit
abbrev pub read_body : Option (List ℕ) → Option Text → Result FetchError FetchOutcome
read_body none etag = err read_failed
read_body (some bytes) etag =
    if leb (length bytes) max_response_bytes then ok (fresh_body bytes etag) else err read_failed

unfoldable pub outcome_of : Reply → Result FetchError FetchOutcome
outcome_of status_code = err refused_status
outcome_of unreachable = err unreachable_host
outcome_of (response r) =
    if r.status == 304
    then ok not_modified
    else if not (leb 200 r.status && ltb r.status 300)
    then err (http_status r.status)
    else if is_too_long r.content_length
    then err (body_too_long (Option.get_or r.content_length 0))
    else read_body r.streamed r.etag

-- The conditional headers are left out when the refresh is forced.
abbrev pub request_of : Text → Option Text → Option Text → Bool → Request
request_of url if_none_match if_modified_since force = record {
  url = url;
  if_none_match = if force then none else if_none_match;
  if_modified_since = if force then none else if_modified_since;
}

unfoldable pub fetch_source_sync :
    Net → ℕ → Text → Option Text → Option Text → Bool → Result FetchError FetchOutcome
unfolding outcome_of
fetch_source_sync net i url if_none_match if_modified_since force =
    outcome_of (net.call i (request_of url if_none_match if_modified_since force))

pub data Parsed : Type 0 where
  fresh : ℕ → Option Text → Option Warning → Parsed
  unchanged : Parsed

abbrev pub still_not_modified : Uuid → FetchOutcome → Result FetchError FetchOutcome
still_not_modified id not_modified = err (uncached_not_modified id)
still_not_modified id (fresh_body bytes etag) = ok (fresh_body bytes etag)

-- A 304 with no cache on the disk is asked again with no condition.
unfoldable pub with_cache : Net → Uuid → Text → Bool → FetchOutcome → Result FetchError FetchOutcome
unfolding fetch_source_sync
with_cache net id url cached (fresh_body bytes etag) = ok (fresh_body bytes etag)
with_cache net id url true not_modified = ok not_modified
with_cache net id url false not_modified = do
  again ← fetch_source_sync net 1 url none none false
  still_not_modified id again

abbrev pub or_error {ℓ} : {A : Type ℓ} {E : Type ℓ} → E → Option A → Result E A
or_error e none = err e
or_error e (some a) = ok a

-- `?` on a result, with the disk as it is then
abbrev pub or_return :
    {A B : Type 0}
    → Root
    → Result FetchError A
    → (A → Result FetchError B × Root)
    → Result FetchError B × Root
or_return root (err e) next = (err e, root)
or_return root (ok a) next = next a

-- A write of the cache that fails leaves the disk as it was.
abbrev pub cached_as : Parsed → Root → Result StoreError Root → Result FetchError Parsed × Root
cached_as parsed root (err e) = (err (store_failed e), root)
cached_as parsed root (ok root') = (ok parsed, root')

-- The checks on what was parsed.
unfoldable pub accept : ℕ → BlocklistParse → Result FetchError BlocklistParse
accept limit p =
    if ltb limit (length p.domains)
    then err (over_limit (length p.domains) limit)
    else if is_empty p.domains && ltb 0 p.error_count
    then err (nothing_parsed p.error_count)
    else ok p

abbrev pub limit_of : AdBlockSource → ℕ
limit_of s = Option.get_or s.rules_limit_override max_rules_per_source

module _ (A : Type 0) ⦃lower : Lowercase⦄ ⦃ip : IpAddr A⦄ where
  abbrev pub parse_as : (ℕ → Uuid) → BlocklistFormat → Text → BlocklistParse
  parse_as uuids hosts_format content = parse_blocklist_domains A uuids content
  parse_as uuids domains_format content = parse_domains_blocklist content

  module _ ⦃ids : IdText⦄ where
    -- What is done with a body: it is parsed, checked, and written to the cache.
    unfoldable pub store_body :
        Net
        → (ℕ → Uuid)
        → AdBlockSource
        → Root
        → List ℕ
        → Option Text
        → Result FetchError Parsed × Root
    unfolding accept write_cache canon parse_error_warning
    store_body net uuids s root bytes etag =
        or_return root (or_error not_utf8 (net.from_utf8 bytes)) λ content.
          or_return root (accept (limit_of s) (parse_as uuids s.format content)) λ p.
            cached_as (fresh (length p.domains) etag (parse_error_warning p)) root
              (write_cache s.source_id (canon p.domains) root)

    abbrev pub store_outcome :
        Net → (ℕ → Uuid) → AdBlockSource → Root → FetchOutcome → Result FetchError Parsed × Root
    store_outcome net uuids s root not_modified = (ok unchanged, root)
    store_outcome net uuids s root (fresh_body bytes etag) = store_body net uuids s root bytes etag

    unfoldable pub fetch_parse :
        Net → (ℕ → Uuid) → Bool → AdBlockSource → Root → Result FetchError Parsed × Root
    unfolding fetch_source_sync with_cache store_body
    fetch_parse net uuids force s root =
        or_return root
          (fetch_source_sync net 0 s.url s.etag (Option.map net.rfc7231_date s.last_fetched_at)
            force)
          λ first.
            or_return root
              (with_cache net s.source_id s.url
                (is_some (get eqb (cache_path s.source_id) root.caches)) first)
              λ outcome. store_outcome net uuids s root outcome

-- The record of a source after each outcome.
unfoldable pub record_parsed : Messages → ℕ → ℕ → Parsed → AdBlockSource → AdBlockSource
record_parsed messages now elapsed (fresh rule_count etag warning) s = record s {
  last_error = Option.map messages.of_warning warning;
  last_fetched_at = some now;
  rule_count = rule_count;
  etag = etag;
  last_refresh_duration_ms = some elapsed;
  last_refresh_failed_at = none;
}
record_parsed messages now elapsed unchanged s = record s {
  last_error = none;
  last_fetched_at = some now;
  last_refresh_duration_ms = some elapsed;
  last_refresh_failed_at = none;
}

unfoldable pub record_fetch_error_with_timing : Text → ℕ → ℕ → AdBlockSource → AdBlockSource
record_fetch_error_with_timing why now elapsed s = record s {
  last_error = some why;
  last_refresh_duration_ms = some elapsed;
  last_refresh_failed_at = some now;
}

unfoldable pub record_fetch_error : Text → AdBlockSource → AdBlockSource
record_fetch_error why s = record s { last_error = some why }

pub record World : Type 0 where
  pub state : AdBlockState
  pub root : Root

abbrev pub finish_fetch :
    Messages
    → ℕ
    → ℕ
    → Uuid
    → World
    → Result FetchError Parsed × Root
    → World × Result FetchError Unit
finish_fetch messages now elapsed id w (ok parsed, root) = (
  record {
    state = update_source id (record_parsed messages now elapsed parsed) w.state;
    root = root;
  },
  ok tt,
)
finish_fetch messages now elapsed id w (err e, root) = (
  record {
    state =
        update_source id (record_fetch_error_with_timing (messages.of_error e) now elapsed) w.state;
    root = root;
  },
  err e,
)

module _ (A : Type 0) ⦃lower : Lowercase⦄ ⦃ip : IpAddr A⦄ ⦃ids : IdText⦄ where
  abbrev pub fetch_found :
      Net
      → Messages
      → (ℕ → Uuid)
      → ℕ
      → ℕ
      → Bool
      → Uuid
      → World
      → Option AdBlockSource
      → World × Result FetchError Unit
  fetch_found net messages uuids now elapsed force id w none = (w, err (source_not_found id))
  fetch_found net messages uuids now elapsed force id w (some s) =
      finish_fetch messages now elapsed id w (fetch_parse A net uuids force s w.root)

  unfoldable pub fetch_and_cache_source :
      Net → Messages → (ℕ → Uuid) → ℕ → ℕ → Bool → Uuid → World → World × Result FetchError Unit
  unfolding fetch_parse find_source record_parsed record_fetch_error_with_timing
  fetch_and_cache_source net messages uuids now elapsed force id w =
      fetch_found net messages uuids now elapsed force id w (find_source w.state id)
