-- ===== src/Commands/Planned.antt =====
-- Profiles that pass the validation give a plan that can be written.
use m_host.Common.{
  Text, List, [], ◌∷◌, Option, none, some, All, All-append, filter, ◌≡◌, Bool-cases, inl, inr,
}
use m_host.Common.Result.{ok}
use m_host.Core.Ip.{IpAddr}
use m_host.Core.Models.{Profile, HostRule}
use m_host.Apply.Content.Lines.{IsWritable}
use m_host.Apply.Content.Verified.{Writable}
use m_host.Apply.Merge.{resolved, resolve_domains, resolve_rules, all_rules, merge}
use m_host.Apply.Merge.Sound.{All-filter, merge-All}
use m_host.Commands.Validation.{validate_profile, IsSound, validate_profile-IsSound}

abbrev Passes : {A : Type 0} → Profile A → Type 0
Passes p = validate_profile p ≡ ok tt

module _ {A : Type 0} ⦃ip : IpAddr A⦄ where
  resolve_domains-Writable :
      (p : Profile A) (o : Option A) (ds : List Text)
      → All IsWritable ds
      → All (λ r. IsWritable r.domain) (resolve_domains p o ds)
  unfolding resolve_domains resolved
  resolve_domains-Writable p none ds h = tt
  resolve_domains-Writable p (some a) [] h = tt
  resolve_domains-Writable p (some a) (d ∷ ds) h = (h.0, resolve_domains-Writable p (some a) ds h.1)

  resolve_rules-Writable :
      (p : Profile A) (rs : List (HostRule A))
      → All IsSound rs
      → All (λ r. IsWritable r.domain) (resolve_rules p rs)
  unfolding resolve_rules
  resolve_rules-Writable p [] h = tt
  resolve_rules-Writable p (r ∷ rs) h =
      All-append (λ r. IsWritable r.domain) (resolve_domains p r.ip r.domains) (resolve_rules p rs)
        (resolve_domains-Writable p r.ip r.domains h.0.writable) (resolve_rules-Writable p rs h.1)

  all_rules-Writable :
      (profiles : List (Profile A))
      → All Passes profiles
      → All (λ r. IsWritable r.domain) (all_rules profiles)
  unfolding all_rules
  all_rules-Writable [] h = tt
  all_rules-Writable (p ∷ ps) h =
      let own = filter (λ r. r.enabled) p.rules in
      let rest = all_rules-Writable ps h.1 in
      elim (Bool-cases p.enabled) [
        | inr off ↦ rw off rest
        | inl on ↦ rw on (
            All-append (λ r. IsWritable r.domain) (resolve_rules p own) (all_rules ps)
              (resolve_rules-Writable p own
                (All-filter IsSound (λ r. r.enabled) p.rules (validate_profile-IsSound p h.0)))
              rest)
      ]

  -- When every profile passes the validation, no merged rule has an empty domain or one with white
  -- space.
  pub merge-Writable :
      (profiles : List (Profile A))
      → All (λ p. validate_profile p ≡ ok tt) profiles
      → Writable (merge profiles).rules
  merge-Writable profiles h =
      merge-All (λ r. IsWritable r.domain) profiles (all_rules-Writable profiles h)
