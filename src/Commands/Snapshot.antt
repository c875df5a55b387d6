-- ===== src/Commands/Snapshot.antt =====
-- src-tauri/src/commands/snapshot.rs: the snapshots of the profiles, their index and the markers of
-- saves that were interrupted. The serde of the three documents is the interface `SnapshotJson`.
pub mod Saving
pub mod Indexed
pub mod Listed
pub mod Loading
pub mod Loaded
use m_host.Common.{
  Text, ℕ, zero, suc, ◌+◌, ◌*◌, Bool, true, false, not, ◌&&◌, ◌||◌, Option, none, some, List, [],
  ◌∷◌, ◌++◌, map, filter, length, any, if◌then◌else◌, ◌==◌, ltb, leb, eqb, is_some, is_empty, take,
  drop, len, codes, ◌≡◌,
}
use m_host.Common.Assoc.{get, put, remove}
use m_host.Common.Result.{Result, ok, err, ◌>>=◌}
use m_host.Common.Sort.{sort_by}
use m_host.Core.Models.{Profile}

pub record SnapshotMeta : Type 0 where
  pub id : Text
  pub name : Text
  pub description : Option Text
  pub profile_count : ℕ
  pub created_at : ℕ

pub record Snapshot (A : Type 0) : Type 0 where
  pub id : Text
  pub name : Text
  pub description : Option Text
  pub profiles : List (Profile A)
  pub created_at : ℕ

pub data SnapshotError : Type 0 where
  long_name long_description serialize_failed io_failed prune_failed invalid_id not_found :
      SnapshotError

-- The directory of the snapshots: whether it exists, the index, and the files `<id>.json` in it and
-- in `pending`, by their ids. The content `none` is a file that cannot be read.
pub record Snapshots : Type 0 where
  pub exists : Bool
  pub index : Option (Option Text)
  pub full : List (Text × Option Text)
  pub pending : List (Text × Option Text)

-- Whether files can be written and removed.
pub record Access : Type 0 where
  pub writes : Bool
  pub removes : Bool

-- A document with its version, and what it prints and reads.
pub record SnapshotJson (A : Type 0) : Type 0 where
  pub print_index : ℕ → List SnapshotMeta → Option Text
  pub read_index : Text → Option (ℕ × List SnapshotMeta)
  pub print_transaction : ℕ → SnapshotMeta → Option Text
  pub read_transaction : Text → Option (ℕ × SnapshotMeta)
  pub print_snapshot : Snapshot A → Option Text
  pub read_snapshot : Text → Option (Snapshot A)
  pub read_file_meta : Text → Option SnapshotMeta
  pub is_uuid : Text → Bool
  pub read_index-print_index :
      (version : ℕ) (metas : List SnapshotMeta) (t : Text)
      → print_index version metas ≡ some t
      → read_index t ≡ some (version, metas)

abbrev pub max_snapshots : ℕ
max_snapshots = 20

abbrev pub max_snapshot_name_length : ℕ
max_snapshot_name_length = 100

abbrev pub max_snapshot_desc_length : ℕ
max_snapshot_desc_length = 500

abbrev pub snapshot_index_version : ℕ
snapshot_index_version = 1

abbrev pub snapshot_transaction_version : ℕ
snapshot_transaction_version = 1

abbrev pub newer_first : SnapshotMeta → SnapshotMeta → Bool
newer_first x y = leb y.created_at x.created_at

abbrev pub same_description : Option Text → Option Text → Bool
same_description none none = true
same_description (some x) (some y) = eqb x y
same_description _ _ = false

-- `==` on `SnapshotMeta`
abbrev pub same_meta : SnapshotMeta → SnapshotMeta → Bool
same_meta x y =
    eqb x.id y.id
    && (eqb x.name y.name
        && (same_description x.description y.description
            && (x.profile_count == y.profile_count && x.created_at == y.created_at)))

abbrev pub has_file : Text → Snapshots → Bool
has_file id v = any (λ e. eqb e.0 id) v.full

abbrev pub readable : Option (Option Text) → Option Text
readable none = none
readable (some content) = content

abbrev pub or_else_nothing : {B C : Type 0} → Option B → (B → Option C) → Option C
or_else_nothing none f = none
or_else_nothing (some v) f = f v

abbrev pub set_meta : SnapshotMeta → List SnapshotMeta → List SnapshotMeta
set_meta meta [] = []
set_meta meta (m ∷ ms) =
    let rest = set_meta meta ms in if eqb m.id meta.id then meta ∷ ms else m ∷ rest

abbrev pub find_meta : Text → List SnapshotMeta → Option SnapshotMeta
find_meta id [] = none
find_meta id (m ∷ ms) = let rest = find_meta id ms in if eqb m.id id then some m else rest

abbrev pub push_meta : Option SnapshotMeta → List SnapshotMeta → List SnapshotMeta
push_meta none metas = metas
push_meta (some meta) metas = meta ∷ metas

-- A marker that is read, with a valid id and a full file that reads, is merged into the index.
abbrev pub merge_marker :
    SnapshotMeta → Option SnapshotMeta → List SnapshotMeta × Bool → List SnapshotMeta × Bool
merge_marker meta none (metas, changed) = (metas ++ meta ∷ [], true)
merge_marker meta (some existing) (metas, changed) =
    if same_meta existing meta then (metas, changed) else (set_meta meta metas, true)

abbrev pub add_orphan : Option SnapshotMeta → List SnapshotMeta × Bool → List SnapshotMeta × Bool
add_orphan none s = s
add_orphan (some meta) (metas, changed) =
    if any (λ m. eqb m.id meta.id) metas then (metas, changed) else (metas ++ meta ∷ [], true)

abbrev pub keep_files : Snapshots → List SnapshotMeta × Bool → List SnapshotMeta × Bool
keep_files v (metas, changed) =
    let kept = filter (λ m. has_file m.id v) metas in
    (kept, changed || not (length kept == length metas))

abbrev pub without_markers : Access → Snapshots → Snapshots
without_markers access v = if access.removes then record v { pending = [] } else v

module _ (A : Type 0) ⦃json : SnapshotJson A⦄ where
  abbrev pub write_printed : Bool → Option Text → Snapshots → Result SnapshotError Unit × Snapshots
  write_printed writes none v = (err serialize_failed, v)
  write_printed true (some text) v = (ok tt, record v { index = some (some text) })
  write_printed false (some text) v = (err io_failed, v)

  unfoldable pub write_snapshot_index :
      Access → List SnapshotMeta → Snapshots → Result SnapshotError Unit × Snapshots
  write_snapshot_index access metas v =
      write_printed access.writes (json.print_index snapshot_index_version metas) v

  abbrev pub read_snapshot_meta : Option Text → Option SnapshotMeta
  read_snapshot_meta content = or_else_nothing content json.read_file_meta

  unfoldable pub metas_of : List (Text × Option Text) → List SnapshotMeta
  metas_of [] = []
  metas_of ((id, content) ∷ rest) = push_meta (read_snapshot_meta content) (metas_of rest)

  unfoldable pub rebuild_snapshot_index :
      Access → Snapshots → Result SnapshotError (List SnapshotMeta) × Snapshots
  unfolding metas_of sort_by write_snapshot_index
  rebuild_snapshot_index access v =
      let metas = sort_by newer_first (metas_of v.full) in
      let (written, after) = write_snapshot_index access metas v in
      (written >>= λ _. ok metas, after)

  -- The index that is there, or the rebuilt one.
  abbrev pub of_version :
      Access
      → Option (ℕ × List SnapshotMeta)
      → Snapshots
      → Result SnapshotError (List SnapshotMeta) × Snapshots
  of_version access none v = rebuild_snapshot_index access v
  of_version access (some (version, metas)) v =
      if version == snapshot_index_version then (ok metas, v) else rebuild_snapshot_index access v

  unfoldable pub load_index :
      Access
      → Option (Option Text)
      → Snapshots
      → Result SnapshotError (List SnapshotMeta) × Snapshots
  unfolding rebuild_snapshot_index
  load_index access none v = rebuild_snapshot_index access v
  load_index access (some none) v = (err io_failed, v)
  load_index access (some (some content)) v = of_version access (json.read_index content) v

  abbrev pub resolve_transaction :
      Snapshots → Option (ℕ × SnapshotMeta) → List SnapshotMeta × Bool → List SnapshotMeta × Bool
  resolve_transaction v none s = s
  resolve_transaction v (some (version, meta)) s =
      if version == snapshot_transaction_version
        && (json.is_uuid meta.id
            && is_some (read_snapshot_meta (readable (get eqb meta.id v.full))))
      then merge_marker meta (find_meta meta.id s.0) s
      else s

  unfoldable pub resolve_markers :
      Snapshots → List (Text × Option Text) → List SnapshotMeta × Bool → List SnapshotMeta × Bool
  unfolding get
  resolve_markers v [] s = s
  resolve_markers v ((file_name, content) ∷ rest) s =
      resolve_markers v rest
        (resolve_transaction v (or_else_nothing content json.read_transaction) s)

  unfoldable pub add_orphans :
      List (Text × Option Text) → List SnapshotMeta × Bool → List SnapshotMeta × Bool
  add_orphans [] s = s
  add_orphans ((id, content) ∷ rest) s =
      add_orphans rest (add_orphan (read_snapshot_meta content) s)

  -- What is done with the list that is loaded.
  unfoldable pub reconcile_loaded :
      Access
      → Bool
      → Result SnapshotError (List SnapshotMeta) × Snapshots
      → Result SnapshotError Unit × Snapshots
  unfolding resolve_markers add_orphans sort_by write_snapshot_index
  reconcile_loaded access scan_orphans (err why, v) = (err why, v)
  reconcile_loaded access scan_orphans (ok metas, v) =
      let merged = resolve_markers v v.pending (metas, false) in
      let kept = keep_files v merged in
      let (found, changed) = if scan_orphans then add_orphans v.full kept else kept in
      if changed
      then write_snapshot_index access (sort_by newer_first found) (without_markers access v)
      else (ok tt, without_markers access v)

  unfoldable pub reconcile_snapshot_index :
      Access → Bool → Snapshots → Result SnapshotError Unit × Snapshots
  unfolding load_index reconcile_loaded
  reconcile_snapshot_index access scan_orphans v =
      if not v.exists
      then (ok tt, v)
      else reconcile_loaded access scan_orphans (load_index access v.index v)
