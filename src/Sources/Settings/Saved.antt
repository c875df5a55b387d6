-- ===== src/Sources/Settings/Saved.antt =====
-- A command that reports success leaves the state in memory on the disk.
use m_host.Common.{
  Text, ℕ, zero, suc, ◌-◌, ◌≤◌, Bool, true, not, Option, none, some, List, [], ◌∷◌, ◌≡◌, refl, sym,
  ap, subst, ◌∙◌, arith, length, filter, eqb, Bool-cases, inl, inr,
}
use m_host.Common.Result.{Result, ok, err}
use m_host.Common.Sort.{mem_text}
use m_host.Core.AdBlock.{AdBlockResponse, BlocklistFormat, AdBlockSource, AdBlockState}
use m_host.Core.Models.{Uuid}
use m_host.Sources.Store.{
  Root, StoreError, AdBlockJson, IdText, find_source, write_state, read_state, purge_source,
}
use m_host.Sources.Store.Kept.{read_state-write_state}
use m_host.Sources.Whitelist.{Lowercase, add_accepted, remove_targets, sort_inputs, targets_of}
use m_host.Sources.Fetch.{World, FetchError}
use m_host.Sources.Settings.{
  CommandError, Outcome, Refresh, ReorderDirection, position, moved, check_new_source, check_limit,
  persisted, persist, with_state, set_ad_block_enabled, set_ad_block_refresh_interval,
  set_ad_block_auto_refresh_enabled, after_persist, add_checked, add_ad_block_source, change_found,
  set_ad_block_source_response, limit_checked, set_ad_block_source_rules_limit_override, after_move,
  move_found, reorder_ad_block_sources, purged, remove_ad_block_source, switch_source,
  set_ad_block_source_enabled, surfaced, after_refresh, refresh_ad_block_source,
  refresh_all_ad_block_sources, whitelist_changed, add_whitelist, remove_whitelist,
}

-- The commands, with their arguments.
pub data Command : Type 0 where
  enable auto_refresh : Bool → Command
  interval : ℕ → Command
  add : Uuid → Text → Text → AdBlockResponse → BlocklistFormat → Command
  answer_with : Uuid → AdBlockResponse → Command
  limit : Uuid → Option ℕ → Command
  reorder : Uuid → ReorderDirection → Command
  drop_source : Uuid → Command
  switch : Uuid → Bool → Command
  refresh_source : Uuid → Command
  refresh_all : Command
  allow disallow : List Text → Command

abbrev forget : {B : Type 0} → Outcome B → World × Result CommandError Unit
forget (w, ok b) = (w, ok tt)
forget (w, err e) = (w, err e)

module _ ⦃json : AdBlockJson⦄ ⦃ids : IdText⦄ ⦃lower : Lowercase⦄ where
  unfoldable pub run : Refresh → Command → World → World × Result CommandError Unit
  run refresh (enable on) w = set_ad_block_enabled on w
  run refresh (auto_refresh on) w = set_ad_block_auto_refresh_enabled on w
  run refresh (interval hours) w = set_ad_block_refresh_interval hours w
  run refresh (add id name url response format) w =
      forget (add_ad_block_source refresh id name url response format w)
  run refresh (answer_with id response) w = forget (set_ad_block_source_response id response w)
  run refresh (limit id n) w = forget (set_ad_block_source_rules_limit_override id n w)
  run refresh (reorder id direction) w = forget (reorder_ad_block_sources id direction w)
  run refresh (drop_source id) w = remove_ad_block_source id w
  run refresh (switch id on) w = forget (set_ad_block_source_enabled refresh id on w)
  run refresh (refresh_source id) w = forget (refresh_ad_block_source refresh id w)
  run refresh refresh_all w = forget (refresh_all_ad_block_sources refresh w)
  run refresh (allow inputs) w = forget (add_whitelist inputs w)
  run refresh (disallow inputs) w = forget (remove_whitelist inputs w)

module _ ⦃json : AdBlockJson⦄ where
  -- `adblock.json` reads back as the state in memory.
  abbrev pub IsSaved : World → Type 0
  IsSaved w = read_state w.root ≡ ok w.state

  abbrev SavedIfOk : {B : Type 0} → Outcome B → Type 0
  SavedIfOk (w, ok b) = IsSaved w
  SavedIfOk (w, err e) = Unit

  persisted-IsSaved :
      {B : Type 0} (out : B) (w : World) (r : Result StoreError Root)
      → write_state w.state w.root ≡ r
      → SavedIfOk (persisted out w r)
  persisted-IsSaved out w (ok root) e = read_state-write_state w.state w.root root e
  persisted-IsSaved out w (err why) e = tt

  persist-IsSaved : {B : Type 0} (out : B) (w : World) → SavedIfOk (persist out w)
  persist-IsSaved out w = persisted-IsSaved out w (write_state w.state w.root) refl

  forget-IsSaved : {B : Type 0} (o : Outcome B) → SavedIfOk o → SavedIfOk (forget o)
  forget-IsSaved (w, ok b) h = h
  forget-IsSaved (w, err e) h = h

  change_found-IsSaved :
      (id : Uuid) (change : AdBlockSource → AdBlockSource) (w : World) (o : Option AdBlockSource)
      → SavedIfOk (change_found id change w o)
  change_found-IsSaved id change w none = tt
  change_found-IsSaved id change w (some s) = persist-IsSaved (change s) _

  limit_checked-IsSaved :
      (id : Uuid) (n : Option ℕ) (w : World) (r : Result CommandError Unit)
      → SavedIfOk (limit_checked id n w r)
  limit_checked-IsSaved id n w (err e) = tt
  limit_checked-IsSaved id n w (ok u) =
      change_found-IsSaved id (λ s. record s { rules_limit_override = n }) w
        (find_source w.state id)

  after_move-IsSaved :
      (w : World) (o : Option (List AdBlockSource)) → IsSaved w → SavedIfOk (after_move w o)
  after_move-IsSaved w none h = h
  after_move-IsSaved w (some sources) h = persist-IsSaved sources _

  move_found-IsSaved :
      (direction : ReorderDirection) (id : Uuid) (w : World) (o : Option ℕ)
      → IsSaved w
      → SavedIfOk (move_found direction id w o)
  move_found-IsSaved direction id w none h = tt
  move_found-IsSaved direction id w (some n) h =
      after_move-IsSaved w (moved direction n w.state.sources) h

  -- A list from which nothing was dropped is the same list.
  filter_le : (p : Text → Bool) (xs : List Text) → length (filter p xs) ≤ length xs
  filter_le p [] = omega arith
  filter_le p (x ∷ xs) = ground (arith, filter_le p xs)

  filter_whole :
      (p : Text → Bool) (xs : List Text) → length xs - length (filter p xs) ≡ 0 → filter p xs ≡ xs
  filter_whole p [] h = refl
  filter_whole p (x ∷ xs) h = elim (Bool-cases (p x)) [
    | inl e ↦ rw e (ap (◌∷◌ x) (filter_whole p xs (ground arith)))
    | inr e ↦ absurd (ground (arith, filter_le p xs))
  ]

  remove_nothing :
      (targets ws : List Text)
      → (remove_targets targets ws).0 ≡ 0
      → (remove_targets targets ws).1 ≡ ws
  unfolding remove_targets
  remove_nothing [] ws h = refl
  remove_nothing (t ∷ targets) ws h =
      let whole = filter_whole (λ d. not (eqb d t)) ws (omega arith) in
      remove_nothing targets (filter (λ d. not (eqb d t)) ws) (omega arith) ∙ whole

  add_nothing : (ds ws : List Text) → (add_accepted ds ws).0 ≡ 0 → (add_accepted ds ws).1 ≡ ws
  unfolding add_accepted
  add_nothing [] ws h = refl
  add_nothing (d ∷ ds) ws h = elim (Bool-cases (mem_text d ws)) [
    | inl known ↦ rw known (add_nothing ds ws (ground arith))
    | inr fresh ↦ absurd (ground arith)
  ]

  whitelist_changed-IsSaved :
      {B : Type 0} (n : ℕ) (out : B) (w : World) (ws : List Text)
      → (n ≡ 0 → ws ≡ w.state.whitelist)
      → IsSaved w
      → SavedIfOk (whitelist_changed n out w ws)
  whitelist_changed-IsSaved zero out w ws same h =
      subst (λ x. IsSaved (with_state w (record w.state { whitelist = x }))) (sym (same refl)) h
  whitelist_changed-IsSaved (suc n) out w ws same h = persist-IsSaved out _

  after_persist-IsSaved :
      (id : Uuid) (new : AdBlockSource) (fetched : Result FetchError Unit) (o : Outcome Unit)
      → SavedIfOk o
      → SavedIfOk (after_persist id new fetched o)
  after_persist-IsSaved id new fetched (w, err e) h = tt
  after_persist-IsSaved id new (ok u) (w, ok v) h = h
  after_persist-IsSaved id new (err e) (w, ok v) h = tt

  add_checked-IsSaved :
      (refresh : Refresh) (new : AdBlockSource) (w : World) (r : Result CommandError Unit)
      → SavedIfOk (add_checked refresh new w r)
  add_checked-IsSaved refresh new w (err e) = tt
  add_checked-IsSaved refresh new w (ok u) =
      after_persist-IsSaved new.source_id new _ (persist tt _) (persist-IsSaved tt _)

  surfaced-IsSaved :
      (id : Uuid) (fetched : Result FetchError Unit) (o : Outcome Unit)
      → SavedIfOk o
      → SavedIfOk (surfaced id fetched o)
  surfaced-IsSaved id fetched (w, err e) h = tt
  surfaced-IsSaved id (ok u) (w, ok v) h = h
  surfaced-IsSaved id (err e) (w, ok v) h = tt

  after_refresh-IsSaved :
      (id : Uuid) (r : World × Result FetchError Unit) → SavedIfOk (after_refresh id r)
  after_refresh-IsSaved id (w, fetched) =
      surfaced-IsSaved id fetched (persist tt w) (persist-IsSaved tt w)

  module _ ⦃ids : IdText⦄ where
    purged-IsSaved :
        (w : World) (r : AdBlockState × Result StoreError Root) → SavedIfOk (purged w r)
    purged-IsSaved w (state, ok root) = persist-IsSaved tt _
    purged-IsSaved w (state, err e) = tt

    switch_source-IsSaved :
        (refresh : Refresh) (id : Uuid) (on : Bool) (w : World) (o : Option AdBlockSource)
        → SavedIfOk (switch_source refresh id on w o)
    switch_source-IsSaved refresh id on w none = tt
    switch_source-IsSaved refresh id on w (some s) = persist-IsSaved _ _

    module _ ⦃lower : Lowercase⦄ where
      -- After a command that succeeds, `adblock.json` reads back as the state in memory, if it did
      -- before; whatever the refreshes that the command makes do.
      pub run-IsSaved :
          (refresh : Refresh) (c : Command) (w w' : World)
          → IsSaved w
          → run refresh c w ≡ (w', ok tt)
          → IsSaved w'
      run-IsSaved refresh c w w' h e = subst SavedIfOk e (saved c)
        where
          saved : (c : Command) → SavedIfOk (run refresh c w)
          saved (enable on) = unfold run set_ad_block_enabled in persist-IsSaved tt _
          saved (auto_refresh on) =
              unfold run set_ad_block_auto_refresh_enabled in persist-IsSaved tt _
          saved (interval hours) = unfold run set_ad_block_refresh_interval in persist-IsSaved tt _
          saved (add id name url response format) =
              unfold run add_ad_block_source in
              forget-IsSaved _ (add_checked-IsSaved refresh _ w (check_new_source name url))
          saved (answer_with id response) =
              unfold run set_ad_block_source_response in
              forget-IsSaved _ (change_found-IsSaved id _ w (find_source w.state id))
          saved (limit id n) =
              unfold run set_ad_block_source_rules_limit_override in
              forget-IsSaved _ (limit_checked-IsSaved id n w (check_limit n))
          saved (reorder id direction) =
              unfold run reorder_ad_block_sources in
              forget-IsSaved _ (move_found-IsSaved direction id w (position id w.state.sources) h)
          saved (drop_source id) =
              unfold run remove_ad_block_source in purged-IsSaved w (purge_source id w.state w.root)
          saved (switch id on) =
              unfold run set_ad_block_source_enabled in
              forget-IsSaved _ (switch_source-IsSaved refresh id on w (find_source w.state id))
          saved (refresh_source id) =
              unfold run refresh_ad_block_source in
              forget-IsSaved _ (after_refresh-IsSaved id (refresh true id w))
          saved refresh_all =
              unfold run refresh_all_ad_block_sources in forget-IsSaved _ (persist-IsSaved _ _)
          saved (allow inputs) =
              unfold run add_whitelist in
              forget-IsSaved _ (
                whitelist_changed-IsSaved (add_accepted (sort_inputs inputs).0 w.state.whitelist).0
                  _ w _ (add_nothing (sort_inputs inputs).0 w.state.whitelist) h)
          saved (disallow inputs) =
              unfold run remove_whitelist in
              forget-IsSaved _ (
                whitelist_changed-IsSaved (remove_targets (targets_of inputs) w.state.whitelist).0 _
                  w _ (remove_nothing (targets_of inputs) w.state.whitelist) h)
