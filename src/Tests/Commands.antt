-- ===== src/Tests/Commands.antt =====
-- The decision, the validation, and the disabling of other profiles.
use m_host.Common.{[], ◌∷◌, codes, ◌≡◌, ◌↔◌, refl, All, map, is_whitespace, len, char_len}
use m_host.Common.Result.{ok}
use m_host.Core.Models.{ApplyOutcome, quick_apply, empty_outcome, Profile, new_profile, new_rule}
use m_host.Storage.Files.{get_file, put_file}
use m_host.Storage.Profiles.{
  saved_form, load_profile, list_profiles, list_profiles_by_mode, save_profile, write_and_clean,
  clean_stale, write_profile, read_profiles_from_dir, read_file, parse_profile,
}
use m_host.Commands.Decision.{decide_apply_mode, IsSafe, decide_apply_mode-IsSafe}
use m_host.Commands.Validation.{
  validate_profile, validate_name, validate_description, validate_rules, validate_rule,
  validate_domains, IsSound, validate_profile-IsSound,
}
use m_host.Commands.Apply.{disable_other_profiles, disabled, save_all}
use m_host.Commands.Exclusive.{to_disable, Distinct, disable_other_profiles-load}
use m_host.Tests.Addresses.{Address, local_address}
use m_host.Tests.Profiles.{test_json, sound, before}

abbrev outcome : ApplyOutcome Address
outcome = record empty_outcome { added_count = 60; removed_count = 40 }

decide_apply_mode-IsSafe_example : (decide_apply_mode outcome ≡ quick_apply) ↔ IsSafe outcome
decide_apply_mode-IsSafe_example = decide_apply_mode-IsSafe outcome

abbrev profile : Profile Address
profile = record (new_profile 1 0 (codes "dev")) {
  rules = new_rule 2 local_address (codes "dev.test" ∷ []) ∷ [];
}

profile_passes : validate_profile profile ≡ ok tt
unfolding validate_profile validate_name validate_description validate_rules validate_rule
    validate_domains is_whitespace new_profile new_rule len char_len
profile_passes = refl

validate_profile-IsSound_example : All IsSound profile.rules
validate_profile-IsSound_example = validate_profile-IsSound profile profile_passes

others-Distinct : Distinct (map disabled (to_disable 7 (list_profiles {A = Address} before)))
unfolding list_profiles_by_mode read_profiles_from_dir read_file parse_profile
others-Distinct = (tt, tt)

disabling : (disable_other_profiles Address sound 9 7 before).0 ≡ ok tt
unfolding disable_other_profiles save_all list_profiles_by_mode read_profiles_from_dir read_file
    parse_profile save_profile write_and_clean clean_stale write_profile get_file put_file
disabling = refl

disable_other_profiles-load_example :
    All
      (λ p.
        load_profile p.id (disable_other_profiles Address sound 9 7 before).1 ≡ ok (saved_form p))
      (map disabled (to_disable 7 (list_profiles {A = Address} before)))
disable_other_profiles-load_example =
    disable_other_profiles-load Address sound 9 7 before others-Distinct disabling
