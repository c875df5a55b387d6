-- ===== src/Sources/Settings.antt =====
-- src-tauri/src/commands/adblock.rs: the commands that change the state of the ad-block sources.
-- A command acts on the state in memory and on the disk; the hot reload of the DNS server that
-- `persist_and_reload` makes behind the write acts on neither and is not part of it.
pub mod Saved
use m_host.Common.{
  Text, ℕ, zero, suc, ◌+◌, ◌-◌, ◌*◌, Bool, true, false, not, ◌&&◌, ◌||◌, Option, none, some, List,
  [], ◌∷◌, ◌++◌, ◌≡◌, if◌then◌else◌, ltb, leb, ◌==◌, is_empty, is_some, length, map, trim, len,
  codes, strip_prefix, filter, get_elem?,
}
use mathlib.Core.Option
use m_host.Common.Result.{Result, ok, err, map_err, ◌>>=◌}
use m_host.Core.AdBlock.{AdBlockResponse, BlocklistFormat, AdBlockSource, AdBlockState}
use m_host.Core.Models.{Uuid}
use m_host.Sources.Store.{
  Root, StoreError, AdBlockJson, IdText, has_id, write_state, find_source, update_source,
  purge_source, delete_cache,
}
use m_host.Sources.Whitelist.{
  Lowercase, EntryError, WhitelistInputError, add_accepted, remove_targets, sort_inputs, targets_of,
}
use m_host.Sources.Fetch.{World, FetchError}

pub data CommandError : Type 0 where
  persist_failed purge_failed : StoreError → CommandError
  unknown_source : Uuid → CommandError
  empty_name bad_scheme zero_limit : CommandError
  url_too_long limit_too_high : ℕ → CommandError
  fetch_failed : FetchError → CommandError
  entry_refused : EntryError → CommandError

abbrev pub max_url_len : ℕ
max_url_len = 2048

abbrev pub absolute_max_rules_per_source : ℕ
absolute_max_rules_per_source = 2_000_000

-- What a command leaves behind, and its result.
abbrev pub Outcome : Type 0 → Type 0
Outcome B = World × Result CommandError B

-- A refresh of a source, as the commands call it.
abbrev pub Refresh : Type 0
Refresh = Bool → Uuid → World → World × Result FetchError Unit

pub data ReorderDirection : Type 0 where
  up down : ReorderDirection

-- `u32::clamp`
abbrev pub clamp : ℕ → ℕ → ℕ → ℕ
clamp low high n = if ltb n low then low else if ltb high n then high else n

unfoldable pub position : Uuid → List AdBlockSource → Option ℕ
position id [] = none
position id (s ∷ rest) =
    let later = position id rest in if has_id id s then some 0 else Option.map suc later

-- `swap(n, n + 1)`
unfoldable pub swap_next : ℕ → List AdBlockSource → List AdBlockSource
swap_next n [] = []
swap_next n (s ∷ []) = s ∷ []
swap_next zero (s ∷ t ∷ rest) = t ∷ s ∷ rest
swap_next (suc n) (s ∷ t ∷ rest) = s ∷ swap_next n (t ∷ rest)

-- The sources after a move, `none` at the ends of the list, where nothing changes.
unfoldable pub moved : ReorderDirection → ℕ → List AdBlockSource → Option (List AdBlockSource)
unfolding swap_next
moved up zero sources = none
moved up (suc n) sources = some (swap_next n sources)
moved down n sources = if ltb (n + 1) (length sources) then some (swap_next n sources) else none

abbrev pub is_http : Text → Bool
is_http url =
    is_some (strip_prefix (codes "http://") url) || is_some (strip_prefix (codes "https://") url)

unfoldable pub check_new_source : Text → Text → Result CommandError Unit
unfolding trim len strip_prefix
check_new_source name url =
    if is_empty (trim name)
    then err empty_name
    else if ltb max_url_len (len url)
    then err (url_too_long (len url))
    else if not (is_http url)
    then err bad_scheme
    else ok tt

abbrev pub new_source : Uuid → Text → Text → AdBlockResponse → BlocklistFormat → AdBlockSource
new_source id name url response format = record {
  source_id = id;
  name = name;
  url = url;
  enabled = true;
  response = response;
  format = format;
  last_fetched_at = none;
  last_error = none;
  rule_count = 0;
  etag = none;
  rules_limit_override = none;
  last_refresh_duration_ms = none;
  last_refresh_failed_at = none;
}

unfoldable pub check_limit : Option ℕ → Result CommandError Unit
check_limit none = ok tt
check_limit (some n) =
    if n == 0
    then err zero_limit
    else if ltb absolute_max_rules_per_source n
    then err (limit_too_high n)
    else ok tt

abbrev pub stored_or : {B : Type 0} → B → Option B → B
stored_or default none = default
stored_or default (some b) = b

abbrev pub or_unknown : Uuid → Option AdBlockSource → Result CommandError AdBlockSource
or_unknown id none = err (unknown_source id)
or_unknown id (some s) = ok s

module _ ⦃json : AdBlockJson⦄ where
  abbrev pub persisted : {B : Type 0} → B → World → Result StoreError Root → Outcome B
  persisted out w (ok root) = (record w { root = root }, ok out)
  persisted out w (err e) = (w, err (persist_failed e))

  -- `persist_and_reload` up to the reload, and the result behind it
  abbrev pub persist : {B : Type 0} → B → World → Outcome B
  persist out w = persisted out w (write_state w.state w.root)

  abbrev pub with_state : World → AdBlockState → World
  with_state w state = record w { state = state }

  unfoldable pub set_ad_block_enabled : Bool → World → Outcome Unit
  unfolding write_state
  set_ad_block_enabled enabled w = persist tt (with_state w (record w.state { enabled = enabled }))

  unfoldable pub set_ad_block_refresh_interval : ℕ → World → Outcome Unit
  unfolding write_state
  set_ad_block_refresh_interval hours w =
      persist tt (with_state w (record w.state { refresh_interval_hours = clamp 0 (24 * 7) hours }))

  unfoldable pub set_ad_block_auto_refresh_enabled : Bool → World → Outcome Unit
  unfolding write_state
  set_ad_block_auto_refresh_enabled enabled w =
      persist tt (with_state w (record w.state { auto_refresh_enabled = enabled }))

  -- The source that a command returns, read again from the state.
  abbrev pub stored : Uuid → AdBlockSource → World → AdBlockSource
  stored id default w = stored_or default (find_source w.state id)

  abbrev pub after_persist :
      Uuid → AdBlockSource → Result FetchError Unit → Outcome Unit → Outcome AdBlockSource
  after_persist id new fetched (w, err e) = (w, err e)
  after_persist id new (ok u) (w, ok v) = (w, ok (stored id new w))
  after_persist id new (err e) (w, ok v) = (w, err (fetch_failed e))

  abbrev pub after_fetch :
      Uuid → AdBlockSource → World × Result FetchError Unit → Outcome AdBlockSource
  after_fetch id new (w, fetched) = after_persist id new fetched (persist tt w)

  abbrev pub add_checked :
      Refresh → AdBlockSource → World → Result CommandError Unit → Outcome AdBlockSource
  add_checked refresh new w (err e) = (w, err e)
  add_checked refresh new w (ok u) = after_fetch new.source_id new (
      refresh false new.source_id
        (with_state w (record w.state { sources = w.state.sources ++ new ∷ [] })))

  -- `id` is the drawn UUID.
  unfoldable pub add_ad_block_source :
      Refresh
      → Uuid
      → Text
      → Text
      → AdBlockResponse
      → BlocklistFormat
      → World
      → Outcome AdBlockSource
  unfolding check_new_source write_state find_source
  add_ad_block_source refresh id name url response format w =
      add_checked refresh (new_source id name url response format) w (check_new_source name url)

  abbrev pub source_response : AdBlockResponse → AdBlockSource → AdBlockSource
  source_response response s = record s { response = response }

  -- A change of one source that is written and read back.
  abbrev pub change_found :
      Uuid → (AdBlockSource → AdBlockSource) → World → Option AdBlockSource → Outcome AdBlockSource
  change_found id change w none = (w, err (unknown_source id))
  change_found id change w (some s) =
      persist (change s) (with_state w (update_source id change w.state))

  unfoldable pub set_ad_block_source_response :
      Uuid → AdBlockResponse → World → Outcome AdBlockSource
  unfolding write_state find_source
  set_ad_block_source_response id response w =
      change_found id (source_response response) w (find_source w.state id)

  abbrev pub limit_checked :
      Uuid → Option ℕ → World → Result CommandError Unit → Outcome AdBlockSource
  limit_checked id limit w (err e) = (w, err e)
  limit_checked id limit w (ok u) =
      change_found id (λ s. record s { rules_limit_override = limit }) w (find_source w.state id)

  unfoldable pub set_ad_block_source_rules_limit_override :
      Uuid → Option ℕ → World → Outcome AdBlockSource
  unfolding check_limit write_state find_source
  set_ad_block_source_rules_limit_override id limit w = limit_checked id limit w (check_limit limit)

  abbrev pub after_move : World → Option (List AdBlockSource) → Outcome (List AdBlockSource)
  after_move w none = (w, ok w.state.sources)
  after_move w (some sources) =
      persist sources (with_state w (record w.state { sources = sources }))

  abbrev pub move_found : ReorderDirection → Uuid → World → Option ℕ → Outcome (List AdBlockSource)
  move_found direction id w none = (w, err (unknown_source id))
  move_found direction id w (some n) = after_move w (moved direction n w.state.sources)

  unfoldable pub reorder_ad_block_sources :
      Uuid → ReorderDirection → World → Outcome (List AdBlockSource)
  unfolding position moved write_state
  reorder_ad_block_sources id direction w = move_found direction id w (position id w.state.sources)

  module _ ⦃ids : IdText⦄ where
    abbrev pub purged : World → AdBlockState × Result StoreError Root → Outcome Unit
    purged w (state, ok root) = persist tt (record { state = state; root = root })
    purged w (state, err e) = (with_state w state, err (purge_failed e))

    unfoldable pub remove_ad_block_source : Uuid → World → Outcome Unit
    unfolding purge_source write_state
    remove_ad_block_source id w = purged w (purge_source id w.state w.root)

    abbrev pub root_or : Root → Result StoreError Root → Root
    root_or r (ok r') = r'
    root_or r (err e) = r

    -- Disabling drops the cache, and an error there is only logged.
    abbrev pub drop_cache : Bool → Uuid → Root → Root
    drop_cache true id r = root_or r (delete_cache id r)
    drop_cache false id r = r

    abbrev pub fetched_world : Bool → Refresh → Uuid → World → World
    fetched_world true refresh id w = (refresh false id w).0
    fetched_world false refresh id w = w

    abbrev pub switch_source :
        Refresh → Uuid → Bool → World → Option AdBlockSource → Outcome AdBlockSource
    switch_source refresh id enabled w none = (w, err (unknown_source id))
    switch_source refresh id enabled w (some s) =
        let switched : World = record {
          state = update_source id (λ t. record t { enabled = enabled }) w.state;
          root = drop_cache (s.enabled && not enabled) id w.root;
        } in
        let refreshed = fetched_world (not s.enabled && enabled) refresh id switched in
        persist (stored id s refreshed) refreshed

    unfoldable pub set_ad_block_source_enabled :
        Refresh → Uuid → Bool → World → Outcome AdBlockSource
    unfolding delete_cache write_state find_source
    set_ad_block_source_enabled refresh id enabled w =
        switch_source refresh id enabled w (find_source w.state id)

  -- `fetch_result?` behind the persist. The source that is returned is none where the search for
  -- it panics.
  abbrev pub surfaced :
      Uuid → Result FetchError Unit → Outcome Unit → Outcome (Option AdBlockSource)
  surfaced id fetched (w', err e) = (w', err e)
  surfaced id (ok u) (w', ok v) = (w', ok (find_source w'.state id))
  surfaced id (err e) (w', ok v) = (w', err (fetch_failed e))

  -- The state is written whether or not the fetch succeeded.
  abbrev pub after_refresh : Uuid → World × Result FetchError Unit → Outcome (Option AdBlockSource)
  after_refresh id (w', fetched) = surfaced id fetched (persist tt w')

  unfoldable pub refresh_ad_block_source : Refresh → Uuid → World → Outcome (Option AdBlockSource)
  unfolding write_state find_source
  refresh_ad_block_source refresh id w = after_refresh id (refresh true id w)

  -- The refresh of several sources, one after another in the order given; a second record of the
  -- same error changes nothing.
  unfoldable pub fetch_sources : Refresh → List Uuid → World → World
  fetch_sources refresh [] w = w
  fetch_sources refresh (id ∷ ids) w = fetch_sources refresh ids (refresh true id w).0

  unfoldable pub refresh_all_ad_block_sources : Refresh → World → Outcome (List AdBlockSource)
  unfolding fetch_sources write_state
  refresh_all_ad_block_sources refresh w =
      let enabled = map (λ s. s.source_id) (filter (λ s. s.enabled) w.state.sources) in
      let w' = fetch_sources refresh enabled w in persist w'.state.sources w'

  -- Only a whitelist that grew is written.
  abbrev pub whitelist_changed : {B : Type 0} → ℕ → B → World → List Text → Outcome B
  whitelist_changed zero out w whitelist =
      (with_state w (record w.state { whitelist = whitelist }), ok out)
  whitelist_changed (suc n) out w whitelist =
      persist out (with_state w (record w.state { whitelist = whitelist }))

  module _ ⦃lower : Lowercase⦄ where
    unfoldable pub add_whitelist :
        List Text → World → Outcome (List Text × List WhitelistInputError)
    unfolding sort_inputs add_accepted write_state
    add_whitelist inputs w =
        let (accepted, rejected) = sort_inputs inputs in
        let (newly_added, whitelist) = add_accepted accepted w.state.whitelist in
        whitelist_changed newly_added (whitelist, rejected) w whitelist

    unfoldable pub remove_whitelist : List Text → World → Outcome (List Text)
    unfolding targets_of remove_targets write_state
    remove_whitelist inputs w =
        let (removed, whitelist) = remove_targets (targets_of inputs) w.state.whitelist in
        whitelist_changed removed whitelist w whitelist
