-- ===== src/Sources/Store/Kept.antt =====
-- What the storage of the ad-block sources keeps: a state that was written, the bytes of a corrupt
-- file, and the cached lists of the live sources.
use m_host.Common.{
  Text, ℕ, zero, suc, ◌+◌, Bool, Option, none, some, List, [], ◌∷◌, ◌≡◌, inl, inr, refl, arith,
  if◌then◌else◌, eqb, eqb_iff, any, find, is_some, Bool-cases, ◌==◌, ==_iff, Option-cases, subst,
}
use mathlib.Core.List.{append_cancel_right}
use m_host.Common.Assoc.{get, put, remove, get-put, get-remove}
use m_host.Common.Result.{Result-cases, ok}
use m_host.Core.AdBlock.{AdBlockSource, AdBlockState}
use m_host.Core.Models.{Uuid}
use m_host.Sources.Store.{
  find_source, Dir, Root, counted_name, AdBlockJson, IdText, state_name, free_name, find_backup,
  read_state, read_state_or_default_with_backup, write_state, write_text, cache_path, read_cache,
  is_live, sweep_entries, sweep_orphan_caches, set_aside,
}

module _ ⦃json : AdBlockJson⦄ where
  read_state-write_text :
      (state : AdBlockState) (text : Text) (r r' : Root)
      → json.from_str text ≡ some state
      → write_text (some text) r ≡ ok r'
      → read_state r' ≡ ok state
  unfolding read_state put
  read_state-write_text state text r r' e h = ground (
    arith,
    get-put eqb_iff state_name state_name (some text) r.files,
    eqb_iff state_name state_name,
  )

  -- A state that was written reads back.
  pub read_state-write_state :
      (state : AdBlockState) (r r' : Root) → write_state state r ≡ ok r' → read_state r' ≡ ok state
  unfolding write_state
  read_state-write_state state r r' h = elim (Option-cases (json.to_string_pretty state)) [
    | inl e ↦ absurd (ground arith)
    | inr (text, e) ↦
        read_state-write_text state text r r' (json.from_str-to_string state text e)
          (subst (λ o. write_text o r ≡ ok r') e h)
  ]

-- A name that the search returns is free.
free_name-free :
    (fuel : ℕ) (stamp backup : Text) (counter : ℕ) (files : Dir) (name : Text)
    → free_name fuel stamp backup counter files ≡ some name
    → get eqb name files ≡ none
unfolding free_name
free_name-free zero stamp backup counter files name h = cc
free_name-free (suc fuel) stamp backup counter files name h =
    ground (arith, free_name-free fuel stamp (counted_name stamp counter) (counter + 1) files name)

abbrev pub HasContent : Dir → Option Text → Type 0
HasContent d content = (name : Text) × (get eqb name d ≡ some content)

set_aside-keeps :
    (raw : Text) (backup : Option Text) (r : Root) (name : Text) (content : Option Text)
    → get eqb state_name r.files ≡ some (some raw)
    → ((b : Text) → backup ≡ some b → get eqb b r.files ≡ none)
    → get eqb name r.files ≡ some content
    → HasContent (set_aside raw backup r).files content
set_aside-keeps raw none r name content s f h = (name, h)
set_aside-keeps raw (some b) r name content s f h =
    let free = f b refl in
    elim (Bool-cases r.writable) [
      | inr fixed ↦ (name, rw fixed h)
      | inl changes ↦ elim (Bool-cases (eqb state_name name)) [
        | inl moved ↦ (
          b,
          ground (
            arith,
            get-put eqb_iff b b (some raw) (remove eqb state_name r.files),
            eqb_iff b b,
            eqb_iff state_name name,
          ),
        )
        | inr other ↦ (
          name,
          ground (
            arith,
            get-put eqb_iff name b (some raw) (remove eqb state_name r.files),
            get-remove eqb_iff name state_name r.files,
            eqb_iff b name,
          ),
        )
      ]
    ]

module _ ⦃json : AdBlockJson⦄ where
  -- No file is lost in a recovery: what any file held before, one still holds.
  pub read_state_or_default_with_backup-keeps :
      (stamp : Text) (r : Root) (name : Text) (content : Option Text)
      → get eqb name r.files ≡ some content
      → HasContent (read_state_or_default_with_backup stamp r).1.files content
  unfolding read_state_or_default_with_backup find_backup
  read_state_or_default_with_backup-keeps stamp r name content h =
      elim (Option-cases (get eqb state_name r.files)) [
        | inl absent ↦ (name, rw absent h)
        | inr (none, e) ↦ (name, rw e h)
        | inr (some raw, e) ↦ rw e (elim (Option-cases (json.from_str raw)) [
          | inr (state, read) ↦ (name, rw read h)
          | inl corrupt ↦ rw corrupt (
              set_aside-keeps raw (find_backup stamp r.files) r name content e
                (λ b k. free_name-free 1025 stamp _ 1 r.files b k) h)
        ])
      ]

-- The name of a cache file tells the source.
cache_path-inj : ⦃ids : IdText⦄ (a b : Uuid) → cache_path a ≡ cache_path b → a ≡ b
cache_path-inj ⦃ids⦄ a b e = ids.to_string-inj a b (append_cancel_right _ _ _ e)

module _ ⦃ids : IdText⦄ (state : AdBlockState) where
  is_live-some_source :
      (id : Uuid) (sources : List AdBlockSource)
      → any (λ s. eqb (cache_path s.source_id) (cache_path id)) sources
        ≡ is_some (find (λ s. s.source_id == id) sources)
  is_live-some_source id [] = refl
  is_live-some_source id (s ∷ sources) = ground (
    arith,
    is_live-some_source id sources,
    cache_path-inj s.source_id id,
    eqb_iff (cache_path s.source_id) (cache_path id),
    ==_iff s.source_id id,
  )

  get-sweep_entries :
      (writable : Bool) (d : Dir) (n : ℕ) (kept : Dir) (name : Text)
      → sweep_entries writable state d ≡ ok (n, kept)
      → get eqb name kept ≡ (if is_live state name then get eqb name d else none)
  unfolding sweep_entries get
  get-sweep_entries writable [] n kept name h = ground arith
  get-sweep_entries writable ((k, f) ∷ d) n kept name h =
      elim (Result-cases (sweep_entries writable state d)) [
        | inl ((m, later), e) ↦
            ground (arith, get-sweep_entries writable d m later name e, eqb_iff k name)
        | inr (why, e) ↦ absurd (ground arith)
      ]

  -- After a sweep that succeeds, the cache of a source of the state reads as before it, and any
  -- other source has none.
  pub read_cache-sweep_orphan_caches :
      (id : Uuid) (r r' : Root) (n : ℕ)
      → sweep_orphan_caches state r ≡ ok (n, r')
      → read_cache id r' ≡ (if is_some (find_source state id) then read_cache id r else ok none)
  unfolding sweep_orphan_caches read_cache find_source
  read_cache-sweep_orphan_caches id r r' n h =
      elim (Result-cases (sweep_entries r.writable state r.caches)) [
        | inl ((m, kept), e) ↦ ground (
          arith,
          get-sweep_entries r.writable r.caches m kept (cache_path id) e,
          is_live-some_source id state.sources,
        )
        | inr (why, e) ↦ absurd (ground arith)
      ]
