-- ===== src/Commands/Snapshot/Saving.antt =====
-- src-tauri/src/commands/snapshot.rs: listing, saving and deleting snapshots over the index.
use m_host.Common.{
  Text, ℕ, ◌+◌, ◌*◌, Bool, true, false, not, ◌&&◌, ◌||◌, Option, none, some, List, [], ◌∷◌, ◌++◌,
  filter, length, if◌then◌else◌, ◌==◌, ltb, leb, eqb, is_some, take, drop, len,
}
use m_host.Common.Assoc.{put, remove}
use m_host.Common.Result.{Result, ok, err, ◌>>=◌}
use m_host.Common.Sort.{sort_by}
use m_host.Commands.Snapshot.{
  SnapshotMeta, Snapshot, SnapshotError, long_name, long_description, serialize_failed, io_failed,
  prune_failed, invalid_id, Snapshots, Access, SnapshotJson, max_snapshots,
  max_snapshot_name_length, max_snapshot_desc_length, snapshot_transaction_version, newer_first,
  has_file, readable, of_version, write_snapshot_index, reconcile_snapshot_index,
}

-- The index as it is read again.
abbrev pub sorted_index :
    Result SnapshotError (List SnapshotMeta) × Snapshots
    → Result SnapshotError (List SnapshotMeta) × Snapshots
sorted_index (metas, v) = (metas >>= λ ms. ok (sort_by newer_first ms), v)

abbrev pub remove_full : Text → Snapshots → Snapshots
remove_full id v = record v { full = remove eqb id v.full }

-- The loop that prunes, and whether every removal succeeded.
unfoldable pub prune : Access → List SnapshotMeta → Snapshots → Bool × Snapshots
unfolding remove
prune access [] v = (true, v)
prune access (old ∷ rest) v =
    let gone = access.removes && has_file old.id v in
    let (cleaned, after) = prune access rest (if gone then remove_full old.id v else v) in
    (gone && cleaned, after)

abbrev pub description_length : Option Text → ℕ
description_length none = 0
description_length (some s) = len s

abbrev pub auto_snapshot_interval_days : ℕ
auto_snapshot_interval_days = 3

-- `num_days` of a time that has passed, in seconds; a latest snapshot from the future is no day old.
abbrev pub is_due : ℕ → List SnapshotMeta → Bool
is_due now [] = true
is_due now (latest ∷ rest) = leb (latest.created_at + auto_snapshot_interval_days * 86400) now

module _ (A : Type 0) ⦃json : SnapshotJson A⦄ where
  abbrev pub reload_index :
      Access → Option Text → Snapshots → Result SnapshotError (List SnapshotMeta) × Snapshots
  reload_index access none v = (err io_failed, v)
  reload_index access (some content) v =
      sorted_index (of_version A access (json.read_index content) v)

  abbrev pub after_reconcile :
      Access
      → Result SnapshotError Unit × Snapshots
      → Result SnapshotError (List SnapshotMeta) × Snapshots
  after_reconcile access (err why, v) = (err why, v)
  after_reconcile access (ok u, v) =
      if not v.exists then (ok [], v) else reload_index access (readable v.index) v

  unfoldable pub ensure_snapshot_index :
      Access → Snapshots → Result SnapshotError (List SnapshotMeta) × Snapshots
  unfolding reconcile_snapshot_index sort_by
  ensure_snapshot_index access v =
      after_reconcile access (reconcile_snapshot_index A access false v)

  abbrev pub list_snapshots :
      Access → Snapshots → Result SnapshotError (List SnapshotMeta) × Snapshots
  list_snapshots = ensure_snapshot_index

  abbrev pub finish_save :
      Access
      → SnapshotMeta
      → Result SnapshotError Unit × Snapshots
      → Result SnapshotError SnapshotMeta × Snapshots
  finish_save access meta (err why, v) = (err why, v)
  finish_save access meta (ok u, v) =
      (ok meta, if access.removes then record v { pending = remove eqb meta.id v.pending } else v)

  unfoldable pub save_indexed :
      Access
      → SnapshotMeta
      → Result SnapshotError (List SnapshotMeta) × Snapshots
      → Result SnapshotError SnapshotMeta × Snapshots
  unfolding sort_by prune remove write_snapshot_index
  save_indexed access meta (err why, v) = (err why, v)
  save_indexed access meta (ok all, v) =
      let sorted =
        sort_by newer_first (filter (λ old. not (eqb old.id meta.id)) all ++ meta ∷ []) in
      let (cleaned, pruned) = prune access (drop max_snapshots sorted) v in
      if not cleaned
      then (err prune_failed, pruned)
      else finish_save access meta
          (write_snapshot_index A access (take max_snapshots sorted) pruned)

  -- The marker, then the full file, then the index.
  abbrev pub save_written :
      Access
      → SnapshotMeta
      → Text
      → Option Text
      → Result SnapshotError Unit × Snapshots
      → Result SnapshotError SnapshotMeta × Snapshots
  save_written access meta text transaction (err why, v) = (err why, v)
  save_written access meta text none (ok u, v) = (err serialize_failed, v)
  save_written access meta text (some marker) (ok u, v) =
      let marked = record v { pending = put eqb meta.id (some marker) v.pending } in
      let written = record marked { full = put eqb meta.id (some text) marked.full } in
      if not access.writes
      then (err io_failed, v)
      else save_indexed access meta (ensure_snapshot_index access written)

  abbrev pub meta_of : Snapshot A → SnapshotMeta
  meta_of s = record {
    id = s.id;
    name = s.name;
    description = s.description;
    profile_count = length s.profiles;
    created_at = s.created_at;
  }

  abbrev pub save_printed :
      Access → Snapshot A → Option Text → Snapshots → Result SnapshotError SnapshotMeta × Snapshots
  save_printed access snapshot none v = (err serialize_failed, v)
  save_printed access snapshot (some text) v =
      save_written access (meta_of snapshot) text
        (json.print_transaction snapshot_transaction_version (meta_of snapshot))
        (reconcile_snapshot_index A access false v)

  -- The drawn id, the time and the profiles of the storage are in the snapshot.
  unfoldable pub save_snapshot :
      Access → Snapshot A → Snapshots → Result SnapshotError SnapshotMeta × Snapshots
  unfolding len ensure_snapshot_index save_indexed put
  save_snapshot access snapshot v =
      if ltb max_snapshot_name_length (len snapshot.name)
      then (err long_name, v)
      else if ltb max_snapshot_desc_length (description_length snapshot.description)
      then (err long_description, v)
      else if not access.writes
      then (err io_failed, v)
      else save_printed access snapshot (json.print_snapshot snapshot) (record v { exists = true })

  abbrev pub delete_indexed :
      Access
      → Text
      → Result SnapshotError (List SnapshotMeta) × Snapshots
      → Result SnapshotError Unit × Snapshots
  delete_indexed access id (err why, v) = (err why, v)
  delete_indexed access id (ok all, v) =
      let removed = if has_file id v then remove_full id v else v in
      let kept = filter (λ m. not (eqb m.id id)) all in
      if has_file id v && not access.removes
      then (err io_failed, v)
      else if length kept == length all
      then (ok tt, removed)
      else write_snapshot_index A access kept removed

  unfoldable pub delete_snapshot : Access → Text → Snapshots → Result SnapshotError Unit × Snapshots
  unfolding ensure_snapshot_index write_snapshot_index remove
  delete_snapshot access id v =
      if not (json.is_uuid id)
      then (err invalid_id, v)
      else delete_indexed access id
          (if has_file id v || is_some v.index then ensure_snapshot_index access v else (ok [], v))

  abbrev pub auto_listed :
      Access
      → Snapshot A
      → Result SnapshotError (List SnapshotMeta) × Snapshots
      → Result SnapshotError (Option SnapshotMeta) × Snapshots
  auto_listed access snapshot (err why, v) = (err why, v)
  auto_listed access snapshot (ok metas, v) =
      let (saved, after) = save_snapshot access snapshot v in
      if is_due snapshot.created_at metas
      then (saved >>= λ meta. ok (some meta), after)
      else (ok none, v)

  unfoldable pub auto_snapshot :
      Access → Snapshot A → Snapshots → Result SnapshotError (Option SnapshotMeta) × Snapshots
  unfolding ensure_snapshot_index save_snapshot
  auto_snapshot access snapshot v = auto_listed access snapshot (list_snapshots access v)
