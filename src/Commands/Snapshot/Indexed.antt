-- ===== src/Commands/Snapshot/Indexed.antt =====
-- What the index of the snapshots holds after it was reconciled.
use m_host.Common.{
  Text, ℕ, Bool, true, false, not, ◌||◌, Option, none, some, List, [], ◌∷◌, filter, length, any,
  if◌then◌else◌, ◌==◌, eqb, ◌≤◌, ◌≡◌, refl, sym, ap, subst, ◌∙◌, arith, Bool-cases, inl, inr,
}
use m_host.Common.Result.{Result, ok, err, ok-inj, >>=-ok}
use m_host.Common.Sort.{sort_by, any-insert_by}
use m_host.Commands.Snapshot.{
  SnapshotMeta, SnapshotError, Snapshots, Access, SnapshotJson, snapshot_index_version, newer_first,
  has_file, write_snapshot_index, rebuild_snapshot_index, of_version, load_index, merge_marker,
  find_meta, set_meta, same_meta, or_else_nothing, metas_of, write_printed, resolve_transaction,
  resolve_markers, keep_files, without_markers, readable, reconcile_loaded,
  reconcile_snapshot_index,
}
use m_host.Commands.Snapshot.Saving.{sorted_index, reload_index}

length-filter : {T : Type 0} (p : T → Bool) (xs : List T) → length (filter p xs) ≤ length xs
length-filter p [] = ground arith
length-filter p (x ∷ xs) =
    let rest : length (filter p xs) ≤ length xs = length-filter p xs in
    elim (Bool-cases (p x)) [
      | inl e ↦ rw e (ground (arith, rest))
      | inr e ↦ rw e (ground (arith, rest))
    ]

-- A filter that drops nothing changes nothing.
filter-all :
    {T : Type 0} (p : T → Bool) (xs : List T) → length (filter p xs) ≡ length xs → filter p xs ≡ xs
filter-all p [] h = refl
filter-all p (x ∷ xs) h =
    let bound : length (filter p xs) ≤ length xs = length-filter p xs in
    elim (Bool-cases (p x)) [
      | inl e ↦ rw e (ap (◌∷◌ x) (filter-all p xs (ground (arith, e, h))))
      | inr e ↦ absurd (ground (arith, e, h, bound))
    ]

any-filter : {T : Type 0} (p : T → Bool) (xs : List T) → any (λ x. not (p x)) (filter p xs) ≡ false
any-filter p [] = refl
any-filter p (x ∷ xs) =
    let rest : any (λ x. not (p x)) (filter p xs) ≡ false = any-filter p xs in
    elim (Bool-cases (p x)) [ inl e ↦ rw e (rw e rest) | inr e ↦ rw e rest ]

pub any-sort_by :
    {T : Type 0} (le : T → T → Bool) (p : T → Bool) (xs : List T) → any p (sort_by le xs) ≡ any p xs
unfolding sort_by
any-sort_by le p [] = refl
any-sort_by le p (x ∷ xs) =
    any-insert_by le p x (sort_by le xs) ∙ ap (λ b. p x || b) (any-sort_by le p xs)

-- Whether an entry of the index has no full file.
abbrev pub missing : List (Text × Option Text) → List SnapshotMeta → Bool
missing full metas = any (λ m. not (any (λ e. eqb e.0 m.id) full)) metas

module _ (A : Type 0) ⦃json : SnapshotJson A⦄ where
  -- The index file reads as these entries.
  abbrev pub IsIndexed : Snapshots → List SnapshotMeta → Type 0
  IsIndexed v metas =
      (content : Text) × (v.index ≡ some (some content))
      × (json.read_index content ≡ some (snapshot_index_version, metas))

  -- Only the index and the markers may differ.
  abbrev SameFiles : Snapshots → Snapshots → Type 0
  SameFiles v w = (v.full ≡ w.full) × (v.exists ≡ w.exists)

  printed-ok :
      (writes : Bool) (printed : Option Text) (metas : List SnapshotMeta) (v : Snapshots)
      → json.print_index snapshot_index_version metas ≡ printed
      → (write_printed A writes printed v).0 ≡ ok tt
      → IsIndexed (write_printed A writes printed v).1 metas
        × SameFiles (write_printed A writes printed v).1 v
  printed-ok writes none metas v e h = absurd (cc)
  printed-ok false (some text) metas v e h = absurd (cc)
  printed-ok true (some text) metas v e h =
      ((text, refl, json.read_index-print_index snapshot_index_version metas text e), (refl, refl))

  pub write-ok :
      (access : Access) (metas : List SnapshotMeta) (v : Snapshots)
      → (write_snapshot_index A access metas v).0 ≡ ok tt
      → IsIndexed (write_snapshot_index A access metas v).1 metas
        × SameFiles (write_snapshot_index A access metas v).1 v
  unfolding write_snapshot_index
  write-ok access metas v h = printed-ok access.writes _ metas v refl h

  rebuild-ok :
      (access : Access) (metas : List SnapshotMeta) (v : Snapshots)
      → (rebuild_snapshot_index A access v).0 ≡ ok metas
      → IsIndexed (rebuild_snapshot_index A access v).1 metas
        × SameFiles (rebuild_snapshot_index A access v).1 v
  unfolding rebuild_snapshot_index
  rebuild-ok access metas v h =
      let found = sort_by newer_first (metas_of A v.full) in
      let (u, same, written) = >>=-ok (write_snapshot_index A access found v).0 _ h in
      subst
        (λ ms.
          IsIndexed (write_snapshot_index A access found v).1 ms
          × SameFiles (write_snapshot_index A access found v).1 v)
        (ok-inj same) (write-ok access found v written)

  by_version :
      (access : Access) (content : Text) (is_known : Bool) (version : ℕ)
      (ms metas : List SnapshotMeta) (v : Snapshots)
      → (is_known ≡ true → version ≡ snapshot_index_version)
      → v.index ≡ some (some content)
      → json.read_index content ≡ some (version, ms)
      → let r = if is_known then (ok ms, v) else rebuild_snapshot_index A access v in
        r.0 ≡ ok metas → IsIndexed r.1 metas × SameFiles r.1 v
  by_version access content false version ms metas v known at read h = rebuild-ok access metas v h
  by_version access content true version ms metas v known at read h = (
    (
      content,
      at,
      read
          ∙ ap (λ k. some (k, ms)) (known refl)
          ∙ ap (λ l. some (snapshot_index_version, l)) (ok-inj h),
    ),
    (refl, refl),
  )

  of_version-ok :
      (access : Access) (content : Text) (found : Option (ℕ × List SnapshotMeta))
      (metas : List SnapshotMeta) (v : Snapshots)
      → v.index ≡ some (some content)
      → json.read_index content ≡ found
      → (of_version A access found v).0 ≡ ok metas
      → IsIndexed (of_version A access found v).1 metas
        × SameFiles (of_version A access found v).1 v
  of_version-ok access content none metas v at read h = rebuild-ok access metas v h
  of_version-ok access content (some (version, ms)) metas v at read h =
      by_version access content (version == snapshot_index_version) version ms metas v
        (λ e. ground (arith, e)) at read h

  load_index-ok :
      (access : Access) (index : Option (Option Text)) (metas : List SnapshotMeta) (v : Snapshots)
      → v.index ≡ index
      → (load_index A access index v).0 ≡ ok metas
      → IsIndexed (load_index A access index v).1 metas
        × SameFiles (load_index A access index v).1 v
  unfolding load_index
  load_index-ok access none metas v at h = rebuild-ok access metas v h
  load_index-ok access (some none) metas v at h = absurd (cc)
  load_index-ok access (some (some content)) metas v at h =
      of_version-ok access content (json.read_index content) metas v at refl h

  -- Where nothing is marked as changed, nothing was changed.
  abbrev IsSame : List SnapshotMeta × Bool → List SnapshotMeta × Bool → Type 0
  IsSame after before = after.1 ≡ false → (before.1 ≡ false) × (after.0 ≡ before.0)

  if-IsSame :
      (b : Bool) (x y before : List SnapshotMeta × Bool)
      → IsSame x before
      → IsSame y before
      → IsSame (if b then x else y) before
  if-IsSame true x y before hx hy = hx
  if-IsSame false x y before hx hy = hy

  merge_marker-IsSame :
      (meta : SnapshotMeta) (existing : Option SnapshotMeta) (s : List SnapshotMeta × Bool)
      → IsSame (merge_marker meta existing s) s
  merge_marker-IsSame meta none (metas, changed) h = absurd (cc)
  merge_marker-IsSame meta (some existing) (metas, changed) h =
      if-IsSame (same_meta existing meta) (metas, changed) (set_meta meta metas, true)
        (metas, changed) (λ e. (e, refl)) (λ e. absurd (cc)) h

  resolve_transaction-IsSame :
      (v : Snapshots) (t : Option (ℕ × SnapshotMeta)) (s : List SnapshotMeta × Bool)
      → IsSame (resolve_transaction A v t s) s
  resolve_transaction-IsSame v none s h = (h, refl)
  resolve_transaction-IsSame v (some (version, meta)) s h =
      if-IsSame _ (merge_marker meta (find_meta meta.id s.0) s) s s
        (merge_marker-IsSame meta (find_meta meta.id s.0) s) (λ e. (e, refl)) h

  resolve_markers-IsSame :
      (v : Snapshots) (ps : List (Text × Option Text)) (s : List SnapshotMeta × Bool)
      → IsSame (resolve_markers A v ps s) s
  unfolding resolve_markers
  resolve_markers-IsSame v [] s h = (h, refl)
  resolve_markers-IsSame v (p ∷ ps) s h =
      let read = or_else_nothing p.1 json.read_transaction in
      let (later, same) = resolve_markers-IsSame v ps (resolve_transaction A v read s) h in
      let (first, equal) = resolve_transaction-IsSame v read s later in (first, same ∙ equal)

  -- What is kept is not missing, and if nothing changed, the entries are those of the index.
  kept-ok :
      (v : Snapshots) (metas : List SnapshotMeta)
      → let kept = keep_files v (resolve_markers A v v.pending (metas, false)) in
        (missing v.full kept.0 ≡ false) × (kept.1 ≡ false → kept.0 ≡ metas)
  kept-ok v metas =
      let merged = resolve_markers A v v.pending (metas, false) in
      let p = λ (m : SnapshotMeta). has_file m.id v in
      (
        any-filter p merged.0,
        λ h.
            let unchanged : merged.1 ≡ false = ground (arith, h) in
            let same_length : length (filter p merged.0) ≡ length merged.0 = ground (arith, h) in
            filter-all p merged.0 same_length
            ∙ (resolve_markers-IsSame v v.pending (metas, false) unchanged).1,
      )

  -- The index is there, it reads as entries, and each has its full file.
  abbrev pub IsComplete : Snapshots → Snapshots → Type 0
  IsComplete after before =
      (metas : List SnapshotMeta) × IsIndexed after metas
      × (missing before.full metas ≡ false)
      × (after.full ≡ before.full)
      × (after.exists ≡ before.exists)

  cleared :
      (removes : Bool) (w : Snapshots)
      → let x = if removes then record w { pending = [] } else w in
        (x.index ≡ w.index) × (x.full ≡ w.full) × (x.exists ≡ w.exists)
  cleared true w = (refl, refl, refl)
  cleared false w = (refl, refl, refl)

  written-Complete :
      (access : Access) (changed : Bool) (metas kept : List SnapshotMeta) (w v : Snapshots)
      → IsIndexed w metas
      → SameFiles w v
      → missing v.full kept ≡ false
      → (changed ≡ false → kept ≡ metas)
      → let r =
          if changed
          then write_snapshot_index A access (sort_by newer_first kept) (without_markers access w)
          else (ok tt, without_markers access w) in
        r.0 ≡ ok tt → IsComplete r.1 v
  written-Complete access true metas kept w v indexed same present unchanged h =
      let (index_of, full_of, exists_of) = cleared access.removes w in
      let (written, (full, exists)) =
        write-ok access (sort_by newer_first kept) (without_markers access w) h in
      (
        sort_by newer_first kept,
        written,
        any-sort_by newer_first _ kept ∙ present,
        full ∙ full_of ∙ same.0,
        exists ∙ exists_of ∙ same.1,
      )
  written-Complete access false metas kept w v indexed same present unchanged h =
      let (index_of, full_of, exists_of) = cleared access.removes w in
      let (content, at, read) = indexed in
      (
        metas,
        (content, index_of ∙ at, read),
        ap (missing v.full) (sym (unchanged refl)) ∙ present,
        full_of ∙ same.0,
        exists_of ∙ same.1,
      )

  reconcile_loaded-Complete :
      (access : Access) (r : Result SnapshotError (List SnapshotMeta)) (w v : Snapshots)
      → ((metas : List SnapshotMeta) → r ≡ ok metas → IsIndexed w metas × SameFiles w v)
      → (reconcile_loaded A access false (r, w)).0 ≡ ok tt
      → IsComplete (reconcile_loaded A access false (r, w)).1 v
  unfolding reconcile_loaded
  reconcile_loaded-Complete access (err why) w v loaded h = absurd (cc)
  reconcile_loaded-Complete access (ok metas) w v loaded h =
      let (indexed, same) = loaded metas refl in
      let kept = keep_files w (resolve_markers A w w.pending (metas, false)) in
      let (present, unchanged) = kept-ok w metas in
      written-Complete access kept.1 metas kept.0 w v indexed same
        (subst (λ full. missing full kept.0 ≡ false) same.0 present) unchanged h

  pub reconcile-Complete :
      (access : Access) (v : Snapshots)
      → v.exists ≡ true
      → (reconcile_snapshot_index A access false v).0 ≡ ok tt
      → IsComplete (reconcile_snapshot_index A access false v).1 v
  unfolding reconcile_snapshot_index
  reconcile-Complete access v there h =
      let loaded = load_index A access v.index v in
      let same : reconcile_snapshot_index A access false v
          ≡ reconcile_loaded A access false loaded =
        rw (reconcile_snapshot_index, there) refl in
      subst (λ r. IsComplete r.1 v) (sym same)
        (reconcile_loaded-Complete access loaded.0 loaded.1 v
          (λ metas e. load_index-ok access v.index metas v refl e) (ap (λ r. r.0) (sym same) ∙ h))

  pub reload-sorted :
      (access : Access) (w v : Snapshots)
      → IsComplete w v
      → (metas : List SnapshotMeta) × (reload_index A access (readable w.index) w
          ≡ (ok (sort_by newer_first metas), w))
        × (missing v.full metas ≡ false)
  reload-sorted access w v (metas, (content, at, read), present, full, exists) = (
    metas,
    ap (λ o. reload_index A access o w) (ap readable at)
        ∙ ap (λ f. sorted_index (of_version A access f w)) read,
    present,
  )
