-- ===== src/Commands/Snapshot/Listed.antt =====
-- What a listing of the snapshots shows, and how many a save leaves.
use m_host.Common.{
  Text, ℕ, zero, suc, Bool, true, false, not, Option, none, some, List, [], ◌∷◌, ◌++◌, filter,
  length, take, drop, if◌then◌else◌, ltb, len, eqb, ◌≤◌, ◌≡◌, refl, sym, ap, ◌∙◌, arith,
}
use m_host.Common.Assoc.{remove}
use m_host.Common.Result.{Result, ok, err, ok-inj}
use m_host.Common.Sort.{sort_by}
use m_host.Commands.Snapshot.{
  SnapshotMeta, Snapshot, SnapshotError, prune_failed, io_failed, long_name, long_description,
  Snapshots, Access, SnapshotJson, max_snapshots, newer_first, write_snapshot_index,
  reconcile_snapshot_index, readable, max_snapshot_name_length, max_snapshot_desc_length,
}
use m_host.Commands.Snapshot.Saving.{
  meta_of, reload_index, after_reconcile, list_snapshots, ensure_snapshot_index, finish_save,
  save_indexed, save_written, save_printed, save_snapshot, prune, description_length,
}
use m_host.Commands.Snapshot.Indexed.{
  missing, IsIndexed, IsComplete, write-ok, reconcile-Complete, reload-sorted, any-sort_by,
}

length-take : {T : Type 0} (n : ℕ) (xs : List T) → length (take n xs) ≤ n
length-take zero xs = ground arith
length-take (suc n) [] = ground arith
length-take (suc n) (x ∷ xs) =
    let rest : length (take n xs) ≤ n = length-take n xs in ground (arith, rest)

module _ (A : Type 0) ⦃json : SnapshotJson A⦄ where
  -- What a listing promises of its result and of the directory behind it.
  abbrev IsPresent : Result SnapshotError (List SnapshotMeta) × Snapshots → Snapshots → Type 0
  IsPresent (r, w) v =
      (metas : List SnapshotMeta)
      → r ≡ ok metas
      → (missing v.full metas ≡ false) × (w.full ≡ v.full)

  after_reconcile-IsPresent :
      (access : Access) (r : Result SnapshotError Unit) (w v : Snapshots)
      → (r ≡ ok tt → IsComplete A w v)
      → v.exists ≡ true
      → IsPresent (after_reconcile A access (r, w)) v
  after_reconcile-IsPresent access (err why) w v complete there metas h = absurd (cc)
  after_reconcile-IsPresent access (ok u) w v complete there metas h =
      let done = complete refl in
      let stays : w.exists ≡ true = done.4 ∙ there in
      let (sorted, reloaded, present) = reload-sorted A access w v done in
      let same : after_reconcile A access (ok u, w) ≡ (ok (sort_by newer_first sorted), w) =
        ap (λ b. if not b then (ok [], w) else reload_index A access (readable w.index) w) stays
        ∙ reloaded in
      (
        ap (missing v.full) (sym (ok-inj (sym (ap (λ r. r.0) same) ∙ h)))
            ∙ any-sort_by newer_first _ sorted
            ∙ present,
        ap (λ r. r.1.full) same ∙ done.3,
      )

  -- Every snapshot that a listing of a directory that exists shows has its full file, and the
  -- listing leaves the full files as they are.
  pub list_snapshots-present :
      (access : Access) (v : Snapshots) (metas : List SnapshotMeta)
      → v.exists ≡ true
      → (list_snapshots A access v).0 ≡ ok metas
      → (missing v.full metas ≡ false) × ((list_snapshots A access v).1.full ≡ v.full)
  unfolding ensure_snapshot_index
  list_snapshots-present access v metas there h =
      let (r, w) = reconcile_snapshot_index A access false v in
      after_reconcile-IsPresent access r w v (reconcile-Complete A access v there) there metas h

  -- The index reads as entries that are no more than are kept.
  abbrev pub IsBounded : Snapshots → Type 0
  IsBounded v = (metas : List SnapshotMeta) × IsIndexed A v metas × (length metas ≤ max_snapshots)

  finish_save-ok :
      (access : Access) (meta saved : SnapshotMeta) (r : Result SnapshotError Unit) (w : Snapshots)
      → (finish_save A access meta (r, w)).0 ≡ ok saved
      → (r ≡ ok tt) × ((finish_save A access meta (r, w)).1.index ≡ w.index)
  finish_save-ok access meta saved (err why) w h = absurd (cc)
  finish_save-ok access meta saved (ok u) w h = (refl, marker_gone access.removes)
    where
      marker_gone :
          (b : Bool)
          → (if b then record w { pending = remove eqb meta.id w.pending } else w).index ≡ w.index
      marker_gone true = refl
      marker_gone false = refl

  pruned-IsBounded :
      (access : Access) (meta saved : SnapshotMeta) (sorted : List SnapshotMeta) (cleaned : Bool)
      (w : Snapshots)
      → let r =
          if not cleaned
          then (err prune_failed, w)
          else finish_save A access meta
              (write_snapshot_index A access (take max_snapshots sorted) w) in
        r.0 ≡ ok saved → IsBounded r.1
  pruned-IsBounded access meta saved sorted false w h = absurd (cc)
  pruned-IsBounded access meta saved sorted true w h =
      let (r, after) = write_snapshot_index A access (take max_snapshots sorted) w in
      let (written, kept) = finish_save-ok access meta saved r after h in
      let (content, at, read) = (write-ok A access (take max_snapshots sorted) w written).0 in
      (take max_snapshots sorted, (content, kept ∙ at, read), length-take max_snapshots sorted)

  save_indexed-IsBounded :
      (access : Access) (meta saved : SnapshotMeta) (r : Result SnapshotError (List SnapshotMeta))
      (w : Snapshots)
      → (save_indexed A access meta (r, w)).0 ≡ ok saved
      → IsBounded (save_indexed A access meta (r, w)).1
  unfolding save_indexed
  save_indexed-IsBounded access meta saved (err why) w h = absurd (cc)
  save_indexed-IsBounded access meta saved (ok all) w h =
      let sorted =
        sort_by newer_first (filter (λ old. not (eqb old.id meta.id)) all ++ meta ∷ []) in
      let (cleaned, pruned) = prune access (drop max_snapshots sorted) w in
      pruned-IsBounded access meta saved sorted cleaned pruned h

  -- A rule for a test that ends a run with an error.
  passed :
      (test : Bool) (why : SnapshotError) (w : Snapshots)
      (r : Result SnapshotError SnapshotMeta × Snapshots) (saved : SnapshotMeta)
      → (r.0 ≡ ok saved → IsBounded r.1)
      → (if test then (err why, w) else r).0 ≡ ok saved
      → IsBounded (if test then (err why, w) else r).1
  passed true why w r saved good h = absurd (cc)
  passed false why w r saved good h = good h

  save_written-IsBounded :
      (access : Access) (meta saved : SnapshotMeta) (text : Text) (transaction : Option Text)
      (r : Result SnapshotError Unit) (w : Snapshots)
      → (save_written A access meta text transaction (r, w)).0 ≡ ok saved
      → IsBounded (save_written A access meta text transaction (r, w)).1
  save_written-IsBounded access meta saved text transaction (err why) w h = absurd (cc)
  save_written-IsBounded access meta saved text none (ok u) w h = absurd (cc)
  save_written-IsBounded access meta saved text (some marker) (ok u) w h =
      passed (not access.writes) io_failed w _ saved (save_indexed-IsBounded access meta saved _ _)
        h

  save_printed-IsBounded :
      (access : Access) (snapshot : Snapshot A) (saved : SnapshotMeta) (printed : Option Text)
      (w : Snapshots)
      → (save_printed A access snapshot printed w).0 ≡ ok saved
      → IsBounded (save_printed A access snapshot printed w).1
  save_printed-IsBounded access snapshot saved none w h = absurd (cc)
  save_printed-IsBounded access snapshot saved (some text) w h =
      save_written-IsBounded access (meta_of A snapshot) saved text _ _ _ h

  -- After a save that reports success, the index reads as at most 20 snapshots.
  pub save_snapshot-IsBounded :
      (access : Access) (snapshot : Snapshot A) (v : Snapshots) (saved : SnapshotMeta)
      → (save_snapshot A access snapshot v).0 ≡ ok saved
      → IsBounded (save_snapshot A access snapshot v).1
  unfolding save_snapshot
  save_snapshot-IsBounded access snapshot v saved h =
      let made = record v { exists = true } in
      let printed = json.print_snapshot snapshot in
      let run = save_printed A access snapshot printed made in
      let guarded = if not access.writes then (err io_failed, v) else run in
      let described = ltb max_snapshot_desc_length (description_length snapshot.description) in
      passed (ltb max_snapshot_name_length (len snapshot.name)) long_name v
        (if described then (err long_description, v) else guarded) saved
        (passed described long_description v guarded saved (
          passed (not access.writes) io_failed v run saved
            (save_printed-IsBounded access snapshot saved printed made)))
        h
