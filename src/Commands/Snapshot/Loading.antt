-- ===== src/Commands/Snapshot/Loading.antt =====
-- src-tauri/src/commands/snapshot.rs: loading a snapshot, which saves its profiles, deletes the others
-- and applies the plan.
use m_host.Common.{
  Text, ℕ, false, not, Option, none, some, List, [], ◌∷◌, any, filter, if◌then◌else◌, ◌==◌, eqb,
}
use m_host.Common.Assoc.{get}
use m_host.Common.Result.{Result, ok, err}
use m_host.Core.Errors.{StorageError}
use m_host.Core.Ip.{IpAddr}
use m_host.Core.Models.{Uuid, Profile, ApplyPlan}
use m_host.Apply.Writer.{Platform}
use m_host.Commands.Apply.{CommandError, AppState, save_all, apply_current_plan}
use m_host.Storage.Files.{Files}
use m_host.Storage.Profiles.{Json, Disk, delete_profile, list_all_profiles}
use m_host.Commands.Snapshot.{
  Snapshot, SnapshotError, io_failed, invalid_id, not_found, Snapshots, Access, SnapshotJson,
  reconcile_snapshot_index,
}

pub data LoadError : Type 0 where
  of_snapshot : SnapshotError → LoadError
  of_storage : StorageError → LoadError
  of_apply : CommandError → LoadError
  parse_failed : LoadError

module _ (A : Type 0) where
  abbrev pub extras : List (Profile A) → List (Profile A) → List (Profile A)
  extras kept current = filter (λ p. not (any (λ q. q.id == p.id) kept)) current

  -- The loop that deletes; a failed deletion ends it.
  unfoldable pub delete_all : Disk → List (Profile A) → Files → Result StorageError Unit × Files
  unfolding delete_profile
  delete_all disk [] fs = (ok tt, fs)
  delete_all disk (p ∷ ps) fs =
      let later = delete_all disk ps (delete_profile disk p.id fs).1 in
      elim (delete_profile disk p.id fs).0 [
        | ok _ ↦ later
        | err e ↦ (err e, (delete_profile disk p.id fs).1)
      ]

module _ (A : Type 0) ⦃json : Json A⦄ where
  abbrev pub delete_extras :
      Disk
      → List (Profile A)
      → List (Profile A)
      → Result StorageError Unit × Files
      → Result StorageError Unit × Files
  delete_extras disk kept current (err e, fs) = (err e, fs)
  delete_extras disk kept current (ok u, fs) = delete_all A disk (extras A kept current) fs

  -- The profiles of the snapshot are saved first, so that a failure loses none.
  unfoldable pub replace_profiles :
      Disk → ℕ → List (Profile A) → Files → Result StorageError Unit × Files
  unfolding save_all delete_all
  replace_profiles disk now profiles fs =
      delete_extras disk profiles (list_all_profiles fs) (save_all A disk now profiles fs)

module _ (A : Type 0) ⦃ip : IpAddr A⦄ ⦃json : Json A⦄ ⦃documents : SnapshotJson A⦄ where
  abbrev pub applied :
      AppState
      → Option (Result CommandError (ApplyPlan A × Option ℕ) × AppState)
      → Option (Result LoadError Unit × AppState)
  applied s none = none
  applied s (some (err e, after)) = some (err (of_apply e), after)
  applied s (some (ok plan, after)) = some (ok tt, after)

  abbrev pub apply_replaced :
      (ℕ → Uuid)
      → Platform
      → AppState
      → Result StorageError Unit × Files
      → Option (Result LoadError Unit × AppState)
  apply_replaced uuids host s (err e, fs) = some (err (of_storage e), record s { files = fs })
  apply_replaced uuids host s (ok u, fs) =
      applied s (apply_current_plan A uuids host (record s { files = fs }))

  abbrev pub load_parsed :
      (ℕ → Uuid)
      → Platform
      → Disk
      → ℕ
      → AppState
      → Option (Snapshot A)
      → Option (Result LoadError Unit × AppState)
  load_parsed uuids host disk now s none = some (err parse_failed, s)
  load_parsed uuids host disk now s (some snapshot) =
      apply_replaced uuids host s (replace_profiles A disk now snapshot.profiles s.files)

  abbrev pub load_content :
      (ℕ → Uuid)
      → Platform
      → Disk
      → ℕ
      → AppState
      → Option (Option Text)
      → Option (Result LoadError Unit × AppState)
  load_content uuids host disk now s none = some (err (of_snapshot not_found), s)
  load_content uuids host disk now s (some none) = some (err (of_snapshot io_failed), s)
  load_content uuids host disk now s (some (some content)) =
      load_parsed uuids host disk now s (documents.read_snapshot content)

  abbrev pub load_reconciled :
      (ℕ → Uuid)
      → Platform
      → Disk
      → ℕ
      → Text
      → AppState
      → Result SnapshotError Unit × Snapshots
      → Option (Result LoadError Unit × AppState) × Snapshots
  load_reconciled uuids host disk now id s (err e, v) = (some (err (of_snapshot e), s), v)
  load_reconciled uuids host disk now id s (ok u, v) =
      (load_content uuids host disk now s (get eqb id v.full), v)

  -- `none` is a panic of the plan.
  unfoldable pub load_snapshot :
      (ℕ → Uuid)
      → Platform
      → Disk
      → Access
      → ℕ
      → Text
      → AppState
      → Snapshots
      → Option (Result LoadError Unit × AppState) × Snapshots
  unfolding get reconcile_snapshot_index replace_profiles apply_current_plan
  load_snapshot uuids host disk access now id s v =
      if not (documents.is_uuid id)
      then (some (err (of_snapshot invalid_id), s), v)
      else load_reconciled uuids host disk now id s (reconcile_snapshot_index A access false v)
