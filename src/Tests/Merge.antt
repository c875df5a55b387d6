-- ===== src/Tests/Merge.antt =====
-- A merge of two profiles that give one domain two addresses.
use m_host.Common.{
  true, false, List, [], ◌∷◌, codes, ◌≡◌, refl, All, map, is_empty, is_whitespace, len, char_len,
}
use m_host.Common.Result.{ok}
use m_host.Common.Sort.{mem_text}
use m_host.Core.Models.{Profile, new_profile, new_rule}
use m_host.Apply.Content.Verified.{Writable}
use m_host.Apply.Merge.{all_rules, resolve_rules, resolve_domains, resolved, merge}
use m_host.Apply.Merge.Sound.{merge-free}
use m_host.Commands.Validation.{
  validate_profile, validate_name, validate_description, validate_rules, validate_rule,
  validate_domains,
}
use m_host.Commands.Planned.{merge-Writable}
use m_host.Tests.Addresses.{Address, local_address, public_address, test_addresses}

abbrev profiles : List (Profile Address)
profiles =
    record (new_profile 1 0 (codes "a")) {
      enabled = true;
      rules =
          new_rule 3 local_address (codes "dev.test" ∷ [])
          ∷ new_rule 4 local_address (codes "x.test" ∷ [])
          ∷ [];
    }
    ∷ record (new_profile 2 0 (codes "b")) {
      enabled = true;
      rules = new_rule 5 public_address (codes "x.test" ∷ []) ∷ [];
    }
    ∷ []

domains_given : All (λ r. is_empty r.domain ≡ false) (all_rules profiles)
unfolding all_rules resolve_rules resolve_domains resolved new_profile new_rule
domains_given = (refl, (refl, (refl, tt)))

merge-free_example :
    All
      (λ r. mem_text r.domain (map (λ c. c.domain) (merge profiles).conflicts) ≡ false)
      (merge profiles).rules
merge-free_example = merge-free profiles

profiles_pass : All (λ p. validate_profile p ≡ ok tt) profiles
unfolding validate_profile validate_name validate_description validate_rules validate_rule
    validate_domains is_whitespace new_profile new_rule len char_len
profiles_pass = (refl, (refl, tt))

merge-Writable_example : Writable (merge profiles).rules
merge-Writable_example = merge-Writable profiles profiles_pass
