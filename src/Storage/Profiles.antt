-- ===== src/Storage/Profiles.antt =====
-- The profile operations of `FileStorage`, src-tauri/crates/mhost-storage/src/storage.rs. What may
-- fail in the file system is an argument; the JSON of serde is the interface `Json`.
use m_host.Common.{
  Text, ℕ, Bool, true, false, not, Option, none, some, List, [], ◌∷◌, ◌++◌, map, if◌then◌else◌, ltb,
  is_some, ◌≡◌,
}
use m_host.Common.Result.{Result, ok, err}
use m_host.Core.Errors.{StorageError, io_failed, manifest_corrupted, profile_not_found}
use m_host.Core.Models.{Uuid, HostRule, Profile, ProfileMode, hosts, dns}
use m_host.Storage.Files.{
  File, Dir, Files, get_file, put_file, remove_file, dir_of, set_dir, other_mode,
}

-- What serde keeps of a rule and of a profile: the line number of a rule is skipped.
abbrev pub skip_line_number : {A : Type 0} → HostRule A → HostRule A
skip_line_number r = record r { line_number = none }

abbrev pub saved_form : {A : Type 0} → Profile A → Profile A
saved_form p = record p { rules = map skip_line_number p.rules }

-- `serde_json` on profiles: what was printed reads back, but for the fields that serde skips.
pub record Json (A : Type 0) : Type 0 where
  pub to_string_pretty : Profile A → Option Text
  pub from_str : Text → Option (Profile A)
  pub from_str-to_string_pretty :
      (p : Profile A) (t : Text) → to_string_pretty p ≡ some t → from_str t ≡ some (saved_form p)

-- Whether the steps of a save or a deletion that write the disk succeed.
pub record Disk : Type 0 where
  pub creates : Bool
  pub writes : Bool
  pub removes : Bool

-- `d > _h` on the two times of modification, where both are known
abbrev pub is_newer : Option ℕ → Option ℕ → Bool
is_newer (some d) (some h) = ltb h d
is_newer _ _ = false

abbrev pub choose_path : Option File → Option File → Option ProfileMode
choose_path none none = none
choose_path (some h) none = some hosts
choose_path none (some d) = some dns
choose_path (some h) (some d) = if is_newer d.modified h.modified then some dns else some hosts

-- A path is the mode whose directory holds the file.
abbrev pub find_profile_path : Uuid → Files → Option ProfileMode
find_profile_path id fs = choose_path (get_file id fs.hosts_dir) (get_file id fs.dns_dir)

-- The loop of `delete_profile`, with `removed`.
unfoldable pub delete_from :
    Disk → Uuid → List ProfileMode → Bool → Files → Result StorageError Unit × Files
delete_from disk id [] removed fs = (if removed then ok tt else err (profile_not_found id), fs)
delete_from disk id (mode ∷ modes) removed fs =
    let skipped = delete_from disk id modes removed fs in
    let deleted =
      delete_from disk id modes true (set_dir mode (remove_file id (dir_of mode fs)) fs) in
    if not (is_some (get_file id (dir_of mode fs)))
    then skipped
    else if not disk.removes
    then (err io_failed, fs)
    else deleted

unfoldable pub delete_profile : Disk → Uuid → Files → Result StorageError Unit × Files
unfolding delete_from
delete_profile disk id fs = delete_from disk id (hosts ∷ dns ∷ []) false fs

-- `map_err` on what serde returns
abbrev pub or_corrupted : {A : Type 0} → Option (Profile A) → Result StorageError (Profile A)
or_corrupted none = err manifest_corrupted
or_corrupted (some p) = ok p

module _ {A : Type 0} ⦃json : Json A⦄ where
  unfoldable pub parse_profile : Option Text → Result StorageError (Profile A)
  parse_profile none = err io_failed
  parse_profile (some content) = or_corrupted (json.from_str content)

  unfoldable pub read_file : Option File → Result StorageError (Profile A)
  unfolding parse_profile
  read_file none = err io_failed
  read_file (some f) = parse_profile f.content

  unfoldable pub read_path : Uuid → Option ProfileMode → Files → Result StorageError (Profile A)
  read_path id none fs = err (profile_not_found id)
  read_path id (some mode) fs = read_file (get_file id (dir_of mode fs))

  unfoldable pub load_profile : Uuid → Files → Result StorageError (Profile A)
  unfolding read_path
  load_profile id fs = read_path id (find_profile_path id fs) fs

  -- `atomic_write`: the new file replaces the old one by a rename, at the time `now`.
  unfoldable pub write_profile : ℕ → Text → Profile A → Files → Files
  write_profile now text p fs =
      let new : File = record { content = some text; modified = some now } in
      set_dir p.mode (put_file p.id new (dir_of p.mode fs)) fs

  unfoldable pub clean_stale : Disk → Profile A → Files → Result StorageError Unit × Files
  clean_stale disk p fs =
      let stale = dir_of (other_mode p.mode) fs in
      if not (is_some (get_file p.id stale))
      then (ok tt, fs)
      else if not disk.removes
      then (err io_failed, fs)
      else (ok tt, set_dir (other_mode p.mode) (remove_file p.id stale) fs)

  unfoldable pub write_and_clean :
      Disk → ℕ → Option Text → Profile A → Files → Result StorageError Unit × Files
  unfolding clean_stale write_profile
  write_and_clean disk now none p fs = (err manifest_corrupted, fs)
  write_and_clean disk now (some text) p fs =
      if not disk.writes
      then (err io_failed, fs)
      else clean_stale disk p (write_profile now text p fs)

  unfoldable pub save_profile : Disk → ℕ → Profile A → Files → Result StorageError Unit × Files
  unfolding write_and_clean
  save_profile disk now p fs =
      if not disk.creates
      then (err io_failed, fs)
      else write_and_clean disk now (json.to_string_pretty p) p fs

  -- One entry of the loop of `read_profiles_from_dir`
  abbrev pub sort_result :
      Result StorageError (Profile A)
      → List (Profile A) × List StorageError
      → List (Profile A) × List StorageError
  sort_result (ok p) (profiles, errors) = (p ∷ profiles, errors)
  sort_result (err e) (profiles, errors) = (profiles, e ∷ errors)

  unfoldable pub read_profiles_from_dir : Dir → List (Profile A) × List StorageError
  unfolding read_file
  read_profiles_from_dir [] = ([], [])
  read_profiles_from_dir ((_, f) ∷ rest) =
      sort_result (read_file (some f)) (read_profiles_from_dir rest)

  unfoldable pub list_profiles_by_mode : ProfileMode → Files → List (Profile A)
  unfolding read_profiles_from_dir
  list_profiles_by_mode mode fs = (read_profiles_from_dir (dir_of mode fs)).0

  abbrev pub list_profiles : Files → List (Profile A)
  list_profiles = list_profiles_by_mode hosts

  abbrev pub list_profiles_with_errors : Files → List (Profile A) × List StorageError
  list_profiles_with_errors fs = read_profiles_from_dir fs.hosts_dir

  abbrev pub list_all_profiles : Files → List (Profile A)
  list_all_profiles fs = list_profiles_by_mode hosts fs ++ list_profiles_by_mode dns fs
