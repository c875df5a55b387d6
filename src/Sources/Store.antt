-- ===== src/Sources/Store.antt =====
-- src-tauri/crates/mhost-storage/src/adblock.rs: `adblock.json`, its backups and the cached lists.
-- A directory is the list of its files by name; a file that cannot be read as text is `none`, and
-- in a root that is not `writable` every change fails before it changes anything. A cache directory
-- that does not exist is an empty one.
pub mod Kept
use m_host.Common.{
  Text, ℕ, zero, suc, ◌+◌, Bool, true, false, not, Option, none, some, List, [], ◌∷◌, ◌++◌, ◌≡◌,
  if◌then◌else◌, ltb, ◌==◌, eqb, any, filter, find, is_some, codes, decimal,
}
use m_host.Common.Assoc.{get, put, remove}
use m_host.Common.Result.{Result, ok, err, map_err, ◌>>=◌}
use m_host.Core.AdBlock.{AdBlockSource, AdBlockState, default_state}
use m_host.Core.Models.{Uuid}

abbrev pub Dir : Type 0
Dir = List (Text × Option Text)

pub record Root : Type 0 where
  pub files : Dir
  pub caches : Dir
  pub writable : Bool

pub data StoreError : Type 0 where
  io invalid_data : StoreError

-- What the code uses of serde on `AdBlockState`, and of the text of a UUID.
pub record AdBlockJson : Type 0 where
  pub to_string_pretty : AdBlockState → Option Text
  pub from_str : Text → Option AdBlockState
  pub from_str-to_string :
      (s : AdBlockState) (t : Text) → to_string_pretty s ≡ some t → from_str t ≡ some s

pub record IdText : Type 0 where
  pub to_string : Uuid → Text
  pub to_string-inj : (a b : Uuid) → to_string a ≡ to_string b → a ≡ b

abbrev pub state_name : Text
state_name = codes "adblock.json"

-- `atomic_write`
abbrev pub write_file : Text → Text → Dir → Dir
write_file name content d = put eqb name (some content) d

-- `root.join(format!("adblock.json.corrupt-{}", stamp))`, and with a counter behind it
abbrev pub backup_name : Text → Text
backup_name stamp = codes "adblock.json.corrupt-" ++ stamp

abbrev pub counted_name : Text → ℕ → Text
counted_name stamp counter = backup_name stamp ++ b'-' ∷ decimal counter

-- The loop that looks for a free name. A round whose counter passes 1024 gives up.
unfoldable pub free_name : ℕ → Text → Text → ℕ → Dir → Option Text
unfolding get
free_name zero stamp backup counter files = none
free_name (suc fuel) stamp backup counter files =
    let rest = free_name fuel stamp (counted_name stamp counter) (counter + 1) files in
    if is_some (get eqb backup files)
    then (if ltb 1024 (counter + 1) then none else rest)
    else some backup

unfoldable pub find_backup : Text → Dir → Option Text
unfolding free_name
find_backup stamp files = free_name 1025 stamp (backup_name stamp) 1 files

-- `fs::rename`, of a text that was read to a name that no file has
abbrev pub rename : Text → Text → Text → Root → Root
rename content name backup r =
    if r.writable
    then record r { files = write_file backup content (remove eqb name r.files) }
    else r

abbrev pub set_aside : Text → Option Text → Root → Root
set_aside raw none r = r
set_aside raw (some backup) r = rename raw state_name backup r

module _ ⦃json : AdBlockJson⦄ where
  parse_state : Text → Result StoreError AdBlockState
  parse_state s = elim (json.from_str s) [ some state ↦ ok state | none ↦ err invalid_data ]

  read_found : Option (Option Text) → Result StoreError AdBlockState
  read_found none = ok default_state
  read_found (some none) = err io
  read_found (some (some s)) = parse_state s

  unfoldable pub read_state : Root → Result StoreError AdBlockState
  unfolding get read_found parse_state
  read_state r = read_found (get eqb state_name r.files)

  abbrev pub parsed_or_backup : Text → Text → Option AdBlockState → Root → AdBlockState × Root
  parsed_or_backup stamp raw (some s) r = (s, r)
  parsed_or_backup stamp raw none r = (default_state, set_aside raw (find_backup stamp r.files) r)

  abbrev pub found_or_default : Text → Option (Option Text) → Root → AdBlockState × Root
  found_or_default stamp none r = (default_state, r)
  found_or_default stamp (some none) r = (default_state, r)
  found_or_default stamp (some (some raw)) r = parsed_or_backup stamp raw (json.from_str raw) r

  -- `stamp` is the text of the present time.
  unfoldable pub read_state_or_default_with_backup : Text → Root → AdBlockState × Root
  unfolding get put remove
  read_state_or_default_with_backup stamp r = found_or_default stamp (get eqb state_name r.files) r

  abbrev pub write_text : Option Text → Root → Result StoreError Root
  write_text none r = err invalid_data
  write_text (some text) r =
      if r.writable then ok (record r { files = write_file state_name text r.files }) else err io

  unfoldable pub write_state : AdBlockState → Root → Result StoreError Root
  unfolding put
  write_state state r = write_text (json.to_string_pretty state) r

-- `s.source_id == id` on the first source that has it
abbrev pub has_id : Uuid → AdBlockSource → Bool
has_id id s = s.source_id == id

unfoldable pub find_source : AdBlockState → Uuid → Option AdBlockSource
find_source state id = find (has_id id) state.sources

-- The sources after a change through `find_source_mut`, which changes the first with the id.
unfoldable pub update_first :
    Uuid → (AdBlockSource → AdBlockSource) → List AdBlockSource → List AdBlockSource
update_first id change [] = []
update_first id change (s ∷ rest) =
    let later = update_first id change rest in if has_id id s then change s ∷ rest else s ∷ later

abbrev pub update_source : Uuid → (AdBlockSource → AdBlockSource) → AdBlockState → AdBlockState
update_source id change state = record state { sources = update_first id change state.sources }

module _ ⦃ids : IdText⦄ where
  abbrev pub cache_path : Uuid → Text
  cache_path id = ids.to_string id ++ codes ".txt"

  unfoldable pub write_cache : Uuid → Text → Root → Result StoreError Root
  unfolding put
  write_cache id content r =
      if r.writable
      then ok (record r { caches = write_file (cache_path id) content r.caches })
      else err io

  abbrev pub cache_content : Option (Option Text) → Result StoreError (Option Text)
  cache_content none = ok none
  cache_content (some none) = err io
  cache_content (some (some s)) = ok (some s)

  unfoldable pub read_cache : Uuid → Root → Result StoreError (Option Text)
  unfolding get
  read_cache id r = cache_content (get eqb (cache_path id) r.caches)

  unfoldable pub delete_cache : Uuid → Root → Result StoreError Root
  unfolding get remove
  delete_cache id r =
      if is_some (get eqb (cache_path id) r.caches)
      then (if r.writable
          then ok (record r { caches = remove eqb (cache_path id) r.caches })
          else err io)
      else ok r

  abbrev pub is_live : AdBlockState → Text → Bool
  is_live state name = any (λ s. eqb (cache_path s.source_id) name) state.sources

  -- The loop over the directory: what is removed, and the files that stay.
  unfoldable pub sweep_entries : Bool → AdBlockState → Dir → Result StoreError (ℕ × Dir)
  sweep_entries writable state [] = ok (0, [])
  sweep_entries writable state ((name, f) ∷ rest) =
      let later = sweep_entries writable state rest in
      if is_live state name
      then (do (n, kept) ← later; ok (n, (name, f) ∷ kept))
      else if writable
      then (do (n, kept) ← later; ok (n + 1, kept))
      else err io

  unfoldable pub sweep_orphan_caches : AdBlockState → Root → Result StoreError (ℕ × Root)
  unfolding sweep_entries
  sweep_orphan_caches state r = do
    (n, kept) ← sweep_entries r.writable state r.caches
    ok (n, record r { caches = kept })

  abbrev pub without : Uuid → AdBlockState → AdBlockState
  without id state = record state { sources = filter (λ s. not (has_id id s)) state.sources }

  -- The state changes even where the cache file cannot be removed.
  unfoldable pub purge_source : Uuid → AdBlockState → Root → AdBlockState × Result StoreError Root
  unfolding delete_cache
  purge_source id state r = (without id state, delete_cache id r)
