-- ===== src/Tests/ProfileIo.antt =====
-- Importing and duplicating a profile.
use m_host.Common.{
  Text, ℕ, [], ◌∷◌, some, true, false, codes, ◌≡◌, ◌≤◌, refl, All, all, eqb, trim, is_whitespace,
}
use m_host.Common.Result.{ok}
use m_host.Commands.ProfileIo.{
  duplicate_profile, duplicated_profile, import_profile_from_file, import_profile_from_json,
  profile_from_json, check_json_rules, copy_of, resolve_name_conflict, free_name, free_candidate,
  is_json, max_file_read_size,
}
use m_host.Commands.ProfileIo.Created.{
  IsCreated, import_profile_from_file-creates, duplicate_profile-creates,
}
use m_host.Core.Models.{Uuid, Profile, hosts, new_profile}
use m_host.Hosts.Parser.{parse}
use m_host.Hosts.Validator.{is_valid_domain}
use m_host.Storage.Files.{get_file, put_file}
use m_host.Storage.Profiles.{
  load_profile, save_profile, write_and_clean, clean_stale, write_profile, read_path, read_file,
  parse_profile, list_profiles_by_mode, read_profiles_from_dir,
}
use m_host.Tests.Addresses.{Address, test_addresses}
use m_host.Tests.Profiles.{plain, read_rule, test_json, sound, before}

abbrev ids : ℕ → Uuid
ids n = n

abbrev imported : Profile Address
imported = record (plain 3 false hosts 9 9) { name = codes "dev"; rules = read_rule 20 b'x' ∷ [] }

abbrev saved_text : Text
saved_text = 5 ∷ 1 ∷ 0 ∷ 1 ∷ 1 ∷ 1 ∷ 20 ∷ b'x' ∷ codes "x"

importing :
    (import_profile_from_file Address ids 3 sound 9
      (codes "dev")
      (20, some (codes "JSON"), some saved_text)
      before).0
    ≡ ok imported
unfolding import_profile_from_file import_profile_from_json profile_from_json check_json_rules
    resolve_name_conflict free_name free_candidate list_profiles_by_mode read_profiles_from_dir
    read_file parse_profile save_profile write_and_clean clean_stale write_profile get_file put_file
    eqb trim is_whitespace is_valid_domain
importing = refl

import_profile_from_file-creates_example :
    let run =
      import_profile_from_file Address ids 3 sound 9
        (codes "dev")
        (20, some (codes "JSON"), some saved_text)
        before in
    IsCreated Address 3 imported before run.1
    × (20 ≤ max_file_read_size)
    × (is_json (some (codes "JSON")) ≡ true
        → (p : Profile Address) × (test_json.from_str saved_text ≡ some p)
          × (imported.rules ≡ p.rules)
          × All (λ r. all is_valid_domain r.domains ≡ true) p.rules)
    × (is_json (some (codes "JSON")) ≡ false → imported.rules ≡ (parse ids saved_text).rules)
import_profile_from_file-creates_example =
    import_profile_from_file-creates Address ids 3 sound 9 (codes "dev") 20 (some (codes "JSON"))
      saved_text before imported importing

duplicating : (duplicate_profile Address (some 7) 3 sound 9 (codes "dev") before).0 ≡ ok imported
unfolding duplicate_profile duplicated_profile copy_of new_profile resolve_name_conflict free_name
    free_candidate load_profile read_path list_profiles_by_mode read_profiles_from_dir read_file
    parse_profile save_profile write_and_clean clean_stale write_profile get_file put_file eqb trim
    is_whitespace
duplicating = refl

duplicate_profile-creates_example :
    IsCreated Address 3 imported before
      (duplicate_profile Address (some 7) 3 sound 9 (codes "dev") before).1
    × ((k : Uuid) × (source : Profile Address) × (some 7 ≡ some k)
        × (load_profile k before ≡ ok source)
        × (imported.rules ≡ source.rules)
        × (imported.mode ≡ source.mode)
        × (imported.description ≡ source.description)
        × (imported.tags ≡ source.tags))
duplicate_profile-creates_example =
    duplicate_profile-creates Address (some 7) 3 sound 9 (codes "dev") before imported duplicating
