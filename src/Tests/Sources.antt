-- ===== src/Tests/Sources.antt =====
-- Runs of the ad-block sources: a store, entries of the whitelist, refreshes and commands.
use m_host.Common.{
  Text, ℕ, zero, suc, some-inj, subst, Bool, true, false, Option, none, some, List, [], ◌∷◌, map,
  codes, ◌≡◌, ◌↔◌, refl, arith, if◌then◌else◌, eqb, any, trim, is_some, is_whitespace, len,
  char_len, lines, strip_suffix, split_inclusive, strip_line_end, split_whitespace, split_once, All,
}
use m_host.Common.Assoc.{get, put}
use m_host.Common.Result.{ok, err}
use m_host.Core.AdBlock.{AdBlockSource, AdBlockState, default_state, nx_domain, hosts_format}
use m_host.Core.Models.{Uuid, new_rule}
use m_host.Hosts.Parser.{parse, parse_line}
use m_host.Hosts.Validator.{is_valid_domain}
use m_host.Hosts.Parser.Valid.{ValidRule, parse-Valid}
use m_host.Sources.Store.{
  Root, AdBlockJson, IdText, read_state_or_default_with_backup, read_cache, sweep_orphan_caches,
  find_source, state_name, cache_path,
}
use m_host.Sources.Store.Kept.{
  HasContent, read_state_or_default_with_backup-keeps, read_cache-sweep_orphan_caches,
}
use m_host.Sources.Whitelist.{
  Lowercase, is_ascii_uppercase, to_ascii_lowercase, validate_whitelist_domain, validate_trimmed,
  canonical, check_chars, check_labels, check_structure,
}
use m_host.Sources.Whitelist.Accepted.{is_entry, validate_whitelist_domain_iff}
use m_host.Sources.Blocklist.{canon, parse_blocklist_domains}
use m_host.Sources.Blocklist.Cached.{parse_blocklist_domains-refetched}
use m_host.Sources.Fetch.{
  Net, unreachable, Messages, unreachable_host, World, fetch_and_cache_source, response,
  fetch_parse, outcome_of, fetch_source_sync,
}
use m_host.Sources.Fetch.Outcome.{KeptBy, Refreshed, fetch_error_keeps, fetch_ok-Refreshed}
use m_host.Sources.Settings.{Refresh}
use m_host.Sources.Settings.Saved.{enable, run, IsSaved, run-IsSaved}
use m_host.Sources.Settings.{set_ad_block_enabled}
use m_host.Sources.Store.{read_state, write_state}
use m_host.Tests.Addresses.{Address, test_addresses, read, zero_address}

pub lower_no_upper : (s : Text) → any is_ascii_uppercase (map to_ascii_lowercase s) ≡ false
lower_no_upper [] = refl
lower_no_upper (c ∷ s) = ground (arith, lower_no_upper s)

instance abbrev pub test_lowercase : Lowercase
test_lowercase = record {
  to_lowercase = map to_ascii_lowercase;
  to_lowercase-ascii = λ s h. refl;
  to_lowercase_lower = lower_no_upper;
}

pub single-inj : (x y : ℕ) → x ∷ [] ≡ y ∷ [] → x ≡ y
single-inj x y e = cc

instance abbrev pub test_ids : IdText
test_ids = record { to_string = λ n. n ∷ []; to_string-inj = single-inj }

-- Prints the states with no source and no whitelist.
abbrev bit : Bool → ℕ
bit true = 1
bit false = 0

abbrev unbit : ℕ → Bool
unbit zero = false
unbit (suc n) = true

unbit-bit : (b : Bool) → unbit (bit b) ≡ b
unbit-bit true = refl
unbit-bit false = refl

abbrev print_with : List AdBlockSource → List Text → AdBlockState → Option Text
print_with [] [] s =
    some (bit s.enabled ∷ bit s.auto_refresh_enabled ∷ s.refresh_interval_hours ∷ [])
print_with _ _ s = none

abbrev scan : Text → Option AdBlockState
scan (e ∷ r ∷ h ∷ []) = some (record {
  enabled = unbit e;
  sources = [];
  whitelist = [];
  auto_refresh_enabled = unbit r;
  refresh_interval_hours = h;
})
scan _ = none

scan-print :
    (sources : List AdBlockSource) (whitelist : List Text) (e r : Bool) (h : ℕ) (t : Text)
    → print_with sources whitelist (record {
      enabled = e;
      sources = sources;
      whitelist = whitelist;
      auto_refresh_enabled = r;
      refresh_interval_hours = h;
    })
      ≡ some t
    → scan t
      ≡ some (record {
        enabled = e;
        sources = sources;
        whitelist = whitelist;
        auto_refresh_enabled = r;
        refresh_interval_hours = h;
      })
scan-print [] [] e r h t k =
    subst
      (λ x.
        scan x
        ≡ some (record {
          enabled = e;
          sources = [];
          whitelist = [];
          auto_refresh_enabled = r;
          refresh_interval_hours = h;
        }))
      (some-inj k) (rw (unbit-bit e, unbit-bit r) refl)
scan-print [] (w ∷ ws) e r h t k = cc
scan-print (s ∷ ss) ws e r h t k = cc

scan_printed :
    (s : AdBlockState) (t : Text) → print_with s.sources s.whitelist s ≡ some t → scan t ≡ some s
scan_printed s t k =
    scan-print s.sources s.whitelist s.enabled s.auto_refresh_enabled s.refresh_interval_hours t k

instance abbrev test_json : AdBlockJson
test_json = record {
  to_string_pretty = λ s. print_with s.sources s.whitelist s;
  from_str = scan;
  from_str-to_string = scan_printed;
}

abbrev corrupt : Root
corrupt = record {
  files = (state_name, some (codes "oops")) ∷ [];
  caches = (cache_path 3, some (codes "0.0.0.0 ads.com")) ∷ (codes "junk", none) ∷ [];
  writable = true;
}

corrupt_file : get eqb state_name corrupt.files ≡ some (some (codes "oops"))
unfolding get eqb
corrupt_file = refl

read_state_or_default_with_backup-keeps_example :
    HasContent
      (read_state_or_default_with_backup (codes "2026") corrupt).1.files
      (some (codes "oops"))
read_state_or_default_with_backup-keeps_example =
    read_state_or_default_with_backup-keeps (codes "2026") corrupt state_name (some (codes "oops"))
      corrupt_file

abbrev pub source : AdBlockSource
source = record {
  source_id = 3;
  name = codes "list";
  url = codes "https://example.org/list";
  enabled = true;
  response = nx_domain;
  format = hosts_format;
  last_fetched_at = none;
  last_error = none;
  rule_count = 1;
  etag = none;
  rules_limit_override = none;
  last_refresh_duration_ms = none;
  last_refresh_failed_at = none;
}

abbrev pub with_source : AdBlockState
with_source = record default_state { sources = source ∷ [] }

abbrev pub swept : Root
swept = record corrupt { caches = (cache_path 3, some (codes "0.0.0.0 ads.com")) ∷ [] }

swept_caches : sweep_orphan_caches with_source corrupt ≡ ok (1, swept)
unfolding sweep_orphan_caches eqb
swept_caches = refl

read_cache-sweep_orphan_caches_example :
    read_cache 3 swept
    ≡ (if is_some (find_source with_source 3) then read_cache 3 corrupt else ok none)
read_cache-sweep_orphan_caches_example =
    read_cache-sweep_orphan_caches with_source 3 corrupt swept 1 swept_caches

validate_whitelist_domain_iff_example :
    (validate_whitelist_domain (codes " Ads.com ") ≡ ok (codes "ads.com")) ↔ (
      (codes "ads.com" ≡ canonical (codes " Ads.com "))
      × (is_entry (canonical (codes " Ads.com ")) ≡ true))
validate_whitelist_domain_iff_example =
    validate_whitelist_domain_iff (codes " Ads.com ") (codes "ads.com")

accepted_entry : validate_whitelist_domain (codes " Ads.com ") ≡ ok (codes "ads.com")
unfolding validate_whitelist_domain validate_trimmed check_chars check_structure check_labels len
    char_len
accepted_entry = refl

abbrev ids_of_lines : ℕ → Uuid
ids_of_lines i = i

abbrev hosts_list : Text
hosts_list = codes "0.0.0.0 Ads.com\nnonsense"

parse_blocklist_domains-refetched_example :
    (parse_blocklist_domains Address ids_of_lines
      (canon (parse_blocklist_domains Address ids_of_lines hosts_list).domains)).domains
    ≡ (parse_blocklist_domains Address ids_of_lines hosts_list).domains
parse_blocklist_domains-refetched_example =
    parse_blocklist_domains-refetched zero_address refl ids_of_lines ids_of_lines hosts_list

parse-Valid_example : All ValidRule (parse {A = Address} ids_of_lines hosts_list).rules
parse-Valid_example = parse-Valid Address ids_of_lines hosts_list

abbrev no_network : Net
no_network = record {
  call = λ i r. unreachable;
  from_utf8 = λ bytes. some bytes;
  rfc7231_date = λ t. [];
}

abbrev one_list : Net
one_list = record no_network {
  call = λ i r. response (record {
    status = 200;
    etag = none;
    content_length = none;
    streamed = some (codes "0.0.0.0 ads.com");
  });
}

abbrev messages : Messages
messages = record { of_error = λ e. codes "failed"; of_warning = λ w. codes "lines dropped" }

abbrev world : World
world = record { state = with_source; root = corrupt }

unreachable_run :
    (fetch_and_cache_source Address no_network messages ids_of_lines 9 1 false 3 world).1
    ≡ err unreachable_host
unfolding fetch_and_cache_source fetch_parse fetch_source_sync outcome_of
unreachable_run = refl

fetch_error_keeps_example :
    KeptBy Address no_network messages ids_of_lines 9 1 false world
      (fetch_and_cache_source Address no_network messages ids_of_lines 9 1 false 3 world).0
fetch_error_keeps_example =
    fetch_error_keeps Address no_network messages ids_of_lines 9 1 false 3 world unreachable_host
      unreachable_run

source_found : find_source with_source 3 ≡ some source
unfolding find_source
source_found = refl

fetched_run :
    (fetch_and_cache_source Address one_list messages ids_of_lines 9 1 false 3 world).1 ≡ ok tt
unfolding fetch_and_cache_source fetch_parse parse_blocklist_domains parse lines split_inclusive
    parse_line trim strip_line_end strip_suffix is_whitespace split_once split_whitespace read
    is_valid_domain new_rule
fetched_run = refl

fetch_ok-Refreshed_example :
    Refreshed Address 3 source world
      (fetch_and_cache_source Address one_list messages ids_of_lines 9 1 false 3 world).0
fetch_ok-Refreshed_example =
    fetch_ok-Refreshed Address one_list messages ids_of_lines 9 1 false 3 world source source_found
      fetched_run

abbrev saved_root : Root
saved_root = record {
  files = (state_name, some (0 ∷ 1 ∷ 24 ∷ [])) ∷ [];
  caches = [];
  writable = true;
}

abbrev saved_world : World
saved_world = record { state = default_state; root = saved_root }

saved_world-IsSaved : IsSaved saved_world
unfolding read_state get eqb
saved_world-IsSaved = refl

abbrev enabled_world : World
enabled_world = record {
  state = record default_state { enabled = true };
  root = record saved_root { files = (state_name, some (1 ∷ 1 ∷ 24 ∷ [])) ∷ [] };
}

abbrev no_refresh : Refresh
no_refresh force id w = (w, ok tt)

enabled_run : run no_refresh (enable true) saved_world ≡ (enabled_world, ok tt)
unfolding run set_ad_block_enabled write_state put eqb
enabled_run = refl

run-IsSaved_example : IsSaved enabled_world
run-IsSaved_example =
    run-IsSaved no_refresh (enable true) saved_world enabled_world saved_world-IsSaved enabled_run
