-- ===== src/Commands/Apply.antt =====
-- The logic of src-tauri/src/commands/apply.rs, and `disable_other_profiles` of profile.rs. The
-- stamp of the last application, whose failure is only logged, is left out.
use m_host.Common.{
  Text, ℕ, ◌==◌, not, ◌&&◌, Bool, true, false, Option, none, some, List, [], ◌∷◌, if◌then◌else◌,
  map, filter, any, is_empty, and_then,
}
use m_host.Common.Result.{Result, ok, err, map_err, ◌>>=◌}
use m_host.Core.Errors.{StorageError, WriteError}
use m_host.Core.Ip.{IpAddr}
use m_host.Core.Models.{
  Uuid, Profile, hosts, dns, same_mode, ApplyPlan, ApplyOutcome, ApplyMode, quick_apply,
  require_preview, empty_plan, from_parts,
}
use m_host.Apply.Plan.{generate_plan}
use m_host.Apply.Writer.{
  HostsFile, missing, System, Platform, Outcome, read_to_string, apply_with_content,
}
use m_host.Storage.Files.{Files}
use m_host.Storage.Profiles.{
  Json, Disk, load_profile, save_profile, list_profiles_by_mode, list_profiles,
}
use m_host.Commands.Decision.{decide_apply_mode}

pub data CommandError : Type 0 where
  storage_failed : StorageError → CommandError
  write_failed : WriteError → CommandError
  profile_missing nothing_to_apply : CommandError
  preview_required : CommandError

pub record AppState : Type 0 where
  pub files : Files
  pub system : System

-- A file that does not exist reads as an empty one.
abbrev pub read_hosts : HostsFile → Result CommandError Text
read_hosts missing = ok []
read_hosts file = map_err write_failed (read_to_string file)

abbrev pub refuse_preview : ApplyMode → Result CommandError Unit
refuse_preview require_preview = err preview_required
refuse_preview quick_apply = ok tt

module _ {A : Type 0} where
  abbrev pub is_other_enabled : Uuid → Profile A → Bool
  is_other_enabled id p = p.enabled && not (p.id == id)

  -- The loop of `generate_preview_plan_logic`
  abbrev pub preview_toggle : Uuid → Bool → Profile A → Profile A
  preview_toggle id enabled p =
      if p.id == id
      then record p { enabled = enabled }
      else if enabled
      then record p { enabled = false }
      else p

  unfoldable pub reject_empty_plan : ApplyPlan A → Result CommandError Unit
  reject_empty_plan plan = if is_empty plan.rules then err nothing_to_apply else ok tt

  abbrev pub disabled : Profile A → Profile A
  disabled p = record p { enabled = false }

module _ (A : Type 0) ⦃json : Json A⦄ where
  unfoldable pub compute_disabled_ids : Uuid → Bool → Files → Result StorageError (List Uuid)
  compute_disabled_ids id false fs = ok []
  compute_disabled_ids id true fs = load_profile {A = A} id fs >>= λ p. ok (
      if not (same_mode p.mode hosts)
      then []
      else map (λ q. q.id) (filter (is_other_enabled id) (list_profiles_by_mode {A = A} hosts fs)))

  -- The loop of `disable_other_profiles`; a failed save ends it.
  unfoldable pub save_all : Disk → ℕ → List (Profile A) → Files → Result StorageError Unit × Files
  save_all disk now [] fs = (ok tt, fs)
  save_all disk now (p ∷ ps) fs =
      let later = save_all disk now ps (save_profile disk now p fs).1 in
      elim (save_profile disk now p fs).0 [
        | ok _ ↦ later
        | err e ↦ (err e, (save_profile disk now p fs).1)
      ]

  unfoldable pub disable_other_profiles : Disk → ℕ → Uuid → Files → Result StorageError Unit × Files
  unfolding save_all
  disable_other_profiles disk now except_id fs =
      save_all disk now
        (map disabled (filter (is_other_enabled except_id) (list_profiles {A = A} fs))) fs

module _ (A : Type 0) ⦃ip : IpAddr A⦄ ⦃json : Json A⦄ where
  -- `none` is a panic, as in `generate_plan`.
  unfoldable pub plan_for :
      (ℕ → Uuid)
      → List (Profile A)
      → Result CommandError Text
      → Option (Result CommandError (ApplyPlan A))
  plan_for uuids profiles (err e) = some (err e)
  plan_for uuids profiles (ok current) =
      and_then (generate_plan uuids profiles current) λ plan. some (ok plan)

  unfoldable pub preview_for :
      (ℕ → Uuid)
      → Uuid
      → Bool
      → Files
      → HostsFile
      → Result StorageError (Profile A)
      → Option (Result CommandError (ApplyPlan A))
  unfolding plan_for
  preview_for uuids id enabled fs file (err e) = some (err (storage_failed e))
  preview_for uuids id enabled fs file (ok target) =
      let profiles = list_profiles_by_mode hosts fs in
      if same_mode target.mode dns
      then some (ok empty_plan)
      else if not (any (λ p. p.id == id) profiles)
      then some (err profile_missing)
      else plan_for uuids (map (preview_toggle id enabled) profiles) (read_hosts file)

  unfoldable pub generate_preview_plan :
      (ℕ → Uuid) → Uuid → Bool → AppState → Option (Result CommandError (ApplyPlan A))
  unfolding preview_for
  generate_preview_plan uuids id enabled s =
      preview_for uuids id enabled s.files s.system.hosts_file (load_profile id s.files)

  abbrev pub outcome_of :
      Result CommandError (ApplyPlan A)
      → Result StorageError (List Uuid)
      → Result CommandError (ApplyOutcome A)
  outcome_of plan disabled_ids =
      plan >>= λ p. map_err storage_failed disabled_ids >>= λ ids. ok (from_parts p ids none none)

  unfoldable pub preview_outcome :
      (ℕ → Uuid) → Uuid → Bool → AppState → Option (Result CommandError (ApplyOutcome A))
  preview_outcome uuids id enabled s =
      and_then (generate_preview_plan uuids id enabled s)
        λ plan. some (outcome_of plan (compute_disabled_ids A id enabled s.files))

  unfoldable pub enforce_quick_apply_policy :
      (ℕ → Uuid) → Uuid → Bool → Bool → AppState → Option (Result CommandError Unit)
  enforce_quick_apply_policy uuids id enabled false s = some (ok tt)
  enforce_quick_apply_policy uuids id enabled true s =
      and_then (preview_outcome uuids id enabled s)
        λ preview. some (preview >>= λ o. refuse_preview (decide_apply_mode o))

  -- The outcome of the writer, with the plan and the files
  abbrev pub with_plan :
      ApplyPlan A
      → Files
      → Outcome (Option ℕ)
      → Result CommandError (ApplyPlan A × Option ℕ) × AppState
  with_plan plan fs (ok backup_path, s) =
      (ok (plan, backup_path), record { files = fs; system = s })
  with_plan plan fs (err e, s) = (err (write_failed e), record { files = fs; system = s })

  unfoldable pub apply_planned :
      Platform
      → Result CommandError Text
      → Result CommandError (ApplyPlan A)
      → AppState
      → Option (Result CommandError (ApplyPlan A × Option ℕ) × AppState)
  apply_planned host (err e) plan s = some (err e, s)
  apply_planned host (ok current) (err e) s = some (err e, s)
  apply_planned host (ok current) (ok plan) s =
      and_then (apply_with_content host plan current s.system) λ o. some (with_plan plan s.files o)

  unfoldable pub apply_current_plan :
      (ℕ → Uuid)
      → Platform
      → AppState
      → Option (Result CommandError (ApplyPlan A × Option ℕ) × AppState)
  unfolding apply_planned plan_for
  apply_current_plan uuids host s =
      and_then
        (plan_for uuids (list_profiles_by_mode hosts s.files) (read_hosts s.system.hosts_file))
        λ plan. apply_planned host (read_hosts s.system.hosts_file) plan s

  abbrev pub with_ids :
      List Uuid
      → Result CommandError (ApplyPlan A × Option ℕ) × AppState
      → Result CommandError (List Uuid × ApplyPlan A × Option ℕ) × AppState
  with_ids ids (ok (plan, backup_path), s) = (ok (ids, plan, backup_path), s)
  with_ids ids (err e, s) = (err e, s)

  -- `load_profile`, the switch and `save_profile`
  abbrev pub save_switched :
      Disk → ℕ → Bool → Result StorageError (Profile A) → Files → Result StorageError Unit × Files
  save_switched disk now enabled (err e) fs = (err e, fs)
  save_switched disk now enabled (ok p) fs =
      save_profile disk now (record p { enabled = enabled; updated_at = now }) fs

  abbrev pub after_others :
      Disk → ℕ → Uuid → Bool → Result StorageError Unit × Files → Result StorageError Unit × Files
  after_others disk now id enabled (err e, fs) = (err e, fs)
  after_others disk now id enabled (ok _, fs) =
      save_switched disk now enabled (load_profile {A = A} id fs) fs

  unfoldable pub switch_profile : Disk → ℕ → Uuid → Bool → Files → Result StorageError Unit × Files
  switch_profile disk now id enabled fs =
      after_others disk now id enabled
        (if enabled then disable_other_profiles A disk now id fs else (ok tt, fs))

  abbrev pub apply_switched :
      (ℕ → Uuid)
      → Platform
      → List Uuid
      → System
      → Result StorageError Unit × Files
      → Option (Result CommandError (List Uuid × ApplyPlan A × Option ℕ) × AppState)
  apply_switched uuids host ids s (err e, fs) =
      some (err (storage_failed e), record { files = fs; system = s })
  apply_switched uuids host ids s (ok _, fs) =
      and_then (apply_current_plan uuids host (record { files = fs; system = s }))
        λ r. some (with_ids ids r)

  unfoldable pub enable_from :
      (ℕ → Uuid)
      → Disk
      → Platform
      → Uuid
      → Bool
      → Result StorageError (List Uuid)
      → AppState
      → Option (Result CommandError (List Uuid × ApplyPlan A × Option ℕ) × AppState)
  unfolding switch_profile
  enable_from uuids disk host id enabled (err e) s = some (err (storage_failed e), s)
  enable_from uuids disk host id enabled (ok ids) s =
      apply_switched uuids host ids s.system (switch_profile disk host.now id enabled s.files)

  unfoldable pub enable_and_apply :
      (ℕ → Uuid)
      → Disk
      → Platform
      → Uuid
      → Bool
      → AppState
      → Option (Result CommandError (List Uuid × ApplyPlan A × Option ℕ) × AppState)
  unfolding enable_from
  enable_and_apply uuids disk host id enabled s =
      enable_from uuids disk host id enabled (compute_disabled_ids A id enabled s.files) s
