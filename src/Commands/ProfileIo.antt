-- ===== src/Commands/ProfileIo.antt =====
-- src-tauri/src/commands/profile_io.rs: importing, exporting and duplicating profiles. What the id
-- of a command reads as, the drawn ids, the time and what a file holds are arguments.
pub mod Names
pub mod Steps
pub mod Created
use m_host.Common.{
  Text, ℕ, zero, suc, ◌+◌, Bool, true, false, not, Option, none, some, List, [], ◌∷◌, ◌++◌, map,
  if◌then◌else◌, leb, ltb, eqb, any, trim, is_empty, codes, decimal, length,
}
use m_host.Common.Result.{Result, ok, err, map_err, ◌>>=◌, ◌>>◌}
use m_host.Common.Sort.{mem_text}
use m_host.Core.Errors.{StorageError, ParseError}
use m_host.Core.Ip.{IpAddr}
use m_host.Core.Models.{Uuid, HostRule, Profile, new_profile}
use m_host.Hosts.Formatter.{format_rules}
use m_host.Hosts.Parser.{ParseResult, parse}
use m_host.Hosts.Validator.{is_valid_domain}
use m_host.Sources.Whitelist.{to_ascii_lowercase}
use m_host.Storage.Files.{Files}
use m_host.Storage.Profiles.{Json, Disk, load_profile, save_profile, list_profiles}

-- `MhostError`, with its message
pub data IoError : Type 0 where
  empty_name name_taken invalid_id invalid_json serialize_failed too_large unreadable : IoError
  parse_errors : ℕ → IoError
  empty_ip : Uuid → IoError
  invalid_domain : Uuid → Text → IoError
  storage_error : StorageError → IoError

pub data ExportFormat : Type 0 where
  as_hosts as_json : ExportFormat

abbrev pub max_file_read_size : ℕ
max_file_read_size = 1048576

abbrev pub max_iterations : ℕ
max_iterations = 100

abbrev pub candidate : Text → ℕ → Text
candidate name counter = name ++ codes " (" ++ decimal counter ++ codes ")"

-- The loop of `resolve_name_conflict`, on fuel.
unfoldable pub free_candidate : List Text → Text → ℕ → ℕ → Result IoError Text
free_candidate existing name zero counter = err name_taken
free_candidate existing name (suc rounds) counter =
    let rest = free_candidate existing name rounds (counter + 1) in
    if not (leb counter max_iterations)
    then err name_taken
    else if not (mem_text (candidate name counter) existing)
    then ok (candidate name counter)
    else rest

unfoldable pub free_name : List Text → Text → Result IoError Text
unfolding free_candidate
free_name existing name =
    if not (mem_text name existing) then ok name else free_candidate existing name max_iterations 2

abbrev pub or_invalid : {B : Type 0} → IoError → Option B → Result IoError B
or_invalid why none = err why
or_invalid why (some v) = ok v

abbrev pub check_name : Text → Result IoError Unit
check_name name = if is_empty (trim name) then err empty_name else ok tt

unfoldable pub check_domains_of : Uuid → List Text → Result IoError Unit
check_domains_of id [] = ok tt
check_domains_of id (d ∷ ds) =
    let rest = check_domains_of id ds in
    if not (is_valid_domain d) then err (invalid_domain id d) else rest

abbrev pub is_json : Option Text → Bool
is_json none = false
is_json (some extension) = eqb (map to_ascii_lowercase extension) (codes "json")

module _ {A : Type 0} where
  abbrev pub check_parsed : ParseResult A → Result IoError (List (HostRule A))
  check_parsed parsed =
      if is_empty parsed.errors then ok parsed.rules else err (parse_errors (length parsed.errors))

module _ (A : Type 0) ⦃ip : IpAddr A⦄ where
  abbrev pub check_ip : HostRule A → Option A → Result IoError Unit
  check_ip rule none = ok tt
  check_ip rule (some a) = if is_empty (ip.display a) then err (empty_ip rule.id) else ok tt

  unfoldable pub check_json_rules : List (HostRule A) → Result IoError Unit
  unfolding check_domains_of
  check_json_rules [] = ok tt
  check_json_rules (rule ∷ rules) = do
    check_ip rule rule.ip
    check_domains_of rule.id rule.domains
    check_json_rules rules

module _ (A : Type 0) ⦃ip : IpAddr A⦄ ⦃json : Json A⦄ where
  unfoldable pub resolve_name_conflict : Text → Files → Result IoError Text
  unfolding free_name
  resolve_name_conflict name fs = free_name (map (λ p. p.name) (list_profiles {A = A} fs)) name

  -- The save at the end, and what is returned behind it.
  abbrev pub save_new :
      Disk → ℕ → Files → Result IoError (Profile A) → Result IoError (Profile A) × Files
  save_new disk now fs (err why) = (err why, fs)
  save_new disk now fs (ok p) =
      let (saved, after) = save_profile disk now p fs in
      (map_err storage_error saved >> ok p, after)

  unfoldable pub imported_profile :
      (ℕ → Uuid) → Uuid → ℕ → Text → Text → Files → Result IoError (Profile A)
  unfolding parse new_profile resolve_name_conflict
  imported_profile uuids id now name hosts_text fs = do
    named ← check_name name
    rules ← check_parsed (parse uuids hosts_text)
    final_name ← resolve_name_conflict name fs
    ok (record (new_profile id now final_name) { rules = rules })

  unfoldable pub import_profile :
      (ℕ → Uuid) → Uuid → Disk → ℕ → Text → Text → Files → Result IoError (Profile A) × Files
  unfolding imported_profile save_profile
  import_profile uuids id disk now name hosts_text fs =
      save_new disk now fs (imported_profile uuids id now name hosts_text fs)

  unfoldable pub exported : ExportFormat → Profile A → Result IoError Text
  unfolding format_rules
  exported as_hosts profile = ok (format_rules profile.rules)
  exported as_json profile = or_invalid serialize_failed (json.to_string_pretty profile)

  unfoldable pub export_profile : Option Uuid → ExportFormat → Files → Result IoError Text
  unfolding load_profile exported
  export_profile id format fs = do
    profile_id ← or_invalid invalid_id id
    profile ← map_err storage_error (load_profile {A = A} profile_id fs)
    exported format profile

  -- The fields of the new profile, at its drawn id.
  unfoldable pub copy_of : Uuid → ℕ → Text → Profile A → Profile A
  unfolding new_profile
  copy_of id now final_name source = record (new_profile id now final_name) {
    mode = source.mode;
    rules = source.rules;
    description = source.description;
    tags = source.tags;
    protected = false;
    enabled = false;
  }

  unfoldable pub duplicated_profile :
      Option Uuid → Uuid → ℕ → Text → Files → Result IoError (Profile A)
  unfolding load_profile copy_of resolve_name_conflict
  duplicated_profile source_id id now new_name fs = do
    named ← check_name new_name
    profile_id ← or_invalid invalid_id source_id
    source ← map_err storage_error (load_profile {A = A} profile_id fs)
    final_name ← resolve_name_conflict new_name fs
    ok (copy_of id now final_name source)

  unfoldable pub duplicate_profile :
      Option Uuid → Uuid → Disk → ℕ → Text → Files → Result IoError (Profile A) × Files
  unfolding duplicated_profile save_profile
  duplicate_profile source_id id disk now new_name fs =
      save_new disk now fs (duplicated_profile source_id id now new_name fs)

  unfoldable pub profile_from_json : Uuid → ℕ → Text → Text → Files → Result IoError (Profile A)
  unfolding check_json_rules resolve_name_conflict
  profile_from_json id now name json_str fs = do
    named ← check_name name
    profile ← or_invalid invalid_json (json.from_str json_str)
    checked ← check_json_rules A profile.rules
    final_name ← resolve_name_conflict name fs
    ok (record profile {
      name = final_name;
      id = id;
      enabled = false;
      protected = false;
      created_at = now;
      updated_at = now;
    })

  unfoldable pub import_profile_from_json :
      Uuid → Disk → ℕ → Text → Text → Files → Result IoError (Profile A) × Files
  unfolding profile_from_json save_profile
  import_profile_from_json id disk now name json_str fs =
      save_new disk now fs (profile_from_json id now name json_str fs)

  -- The size, the extension and the content of the file, `none` where it cannot be read.
  unfoldable pub import_profile_from_file :
      (ℕ → Uuid)
      → Uuid
      → Disk
      → ℕ
      → Text
      → ℕ × Option Text × Option Text
      → Files
      → Result IoError (Profile A) × Files
  unfolding import_profile import_profile_from_json
  import_profile_from_file uuids id disk now name (size, extension, none) fs =
      (if ltb max_file_read_size size then err too_large else err unreadable, fs)
  import_profile_from_file uuids id disk now name (size, extension, some content) fs =
      if ltb max_file_read_size size
      then (err too_large, fs)
      else if is_json extension
      then import_profile_from_json id disk now name content fs
      else import_profile uuids id disk now name content fs
