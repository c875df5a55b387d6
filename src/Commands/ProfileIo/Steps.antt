-- ===== src/Commands/ProfileIo/Steps.antt =====
-- What the steps of an import or a duplication give where they all succeed.
use m_host.Common.{
  Text, ℕ, true, false, Option, none, some, List, [], ◌∷◌, ◌≡◌, refl, sym, ap, ◌∙◌, arith, is_empty,
  Bool-cases, inl, inr, All, all,
}
use m_host.Common.Result.{ok-inj, ok, map_err, >>=-ok, map_err-eq-ok}
use m_host.Core.Ip.{IpAddr}
use m_host.Core.Models.{Uuid, HostRule, Profile, new_profile}
use m_host.Hosts.Parser.{ParseResult, parse}
use m_host.Hosts.Validator.{is_valid_domain}
use m_host.Storage.Files.{Files}
use m_host.Storage.Profiles.{Json, load_profile}
use m_host.Commands.ProfileIo.{
  IoError, or_invalid, check_name, check_parsed, resolve_name_conflict, imported_profile, copy_of,
  duplicated_profile, storage_error, check_domains_of, check_ip, check_json_rules,
  profile_from_json,
}

or_invalid-ok :
    {X : Type 0} {x : X} (why : IoError) (o : Option X) → or_invalid why o ≡ ok x → o ≡ some x
or_invalid-ok why none h = absurd (cc)
or_invalid-ok why (some x) h = ap some (ok-inj h)

check_parsed-rules :
    {A : Type 0} (parsed : ParseResult A) (rules : List (HostRule A))
    → check_parsed parsed ≡ ok rules
    → rules ≡ parsed.rules
check_parsed-rules parsed rules h = elim (Bool-cases (is_empty parsed.errors)) [
  | inl none_left ↦ ground (arith, h, none_left)
  | inr some_left ↦ absurd (ground (arith, h, some_left))
]

check_domains_of-ok :
    (id : Uuid) (ds : List Text) → check_domains_of id ds ≡ ok tt → all is_valid_domain ds ≡ true
unfolding check_domains_of
check_domains_of-ok id [] h = refl
check_domains_of-ok id (d ∷ ds) h = elim (Bool-cases (is_valid_domain d)) [
  | inl valid ↦
      let rest : all is_valid_domain ds ≡ true =
        check_domains_of-ok id ds (ground (arith, valid, h)) in
      ground (arith, valid, rest)
  | inr invalid ↦ absurd (ground (arith, invalid, h))
]

module _ (A : Type 0) ⦃ip : IpAddr A⦄ ⦃json : Json A⦄ where
  pub check_json_rules-ok :
      (rules : List (HostRule A))
      → check_json_rules A rules ≡ ok tt
      → All (λ r. all is_valid_domain r.domains ≡ true) rules
  unfolding check_json_rules
  check_json_rules-ok [] h = tt
  check_json_rules-ok (r ∷ rs) h =
      let (a, h1, _) = >>=-ok (check_ip A r r.ip) _ h in
      let (b, h2, valid) = >>=-ok (check_domains_of r.id r.domains) _ h1 in
      (check_domains_of-ok r.id r.domains valid, check_json_rules-ok rs h2)

  pub profile_from_json-ok :
      (id : Uuid) (now : ℕ) (name text : Text) (fs : Files) (made : Profile A)
      → profile_from_json A id now name text fs ≡ ok made
      → (p : Profile A) × (final_name : Text) × (json.from_str text ≡ some p)
        × All (λ r. all is_valid_domain r.domains ≡ true) p.rules
        × (resolve_name_conflict A name fs ≡ ok final_name)
        × (made ≡ record p {
          name = final_name;
          id = id;
          enabled = false;
          protected = false;
          created_at = now;
          updated_at = now;
        })
  unfolding profile_from_json
  profile_from_json-ok id now name text fs made h =
      let (named, h1, _) = >>=-ok (check_name name) _ h in
      let (p, h2, read) = >>=-ok (or_invalid _ (json.from_str text)) _ h1 in
      let (u, h3, checked) = >>=-ok (check_json_rules A p.rules) _ h2 in
      let (final_name, h4, resolved) = >>=-ok (resolve_name_conflict A name fs) _ h3 in
      (
        p,
        final_name,
        or_invalid-ok _ (json.from_str text) read,
        check_json_rules-ok p.rules checked,
        resolved,
        sym (ok-inj h4),
      )

  pub imported_profile-ok :
      (uuids : ℕ → Uuid) (id : Uuid) (now : ℕ) (name text : Text) (fs : Files) (made : Profile A)
      → imported_profile A uuids id now name text fs ≡ ok made
      → (final_name : Text) × (resolve_name_conflict A name fs ≡ ok final_name)
        × (made ≡ record (new_profile id now final_name) { rules = (parse uuids text).rules })
  unfolding imported_profile
  imported_profile-ok uuids id now name text fs made h =
      let (named, h1, _) = >>=-ok (check_name name) _ h in
      let (rules, h2, parsed) = >>=-ok (check_parsed (parse uuids text)) _ h1 in
      let (final_name, h3, resolved) = >>=-ok (resolve_name_conflict A name fs) _ h2 in
      (
        final_name,
        resolved,
        sym (
            ok-inj (
              ap (λ rs. ok (record (new_profile id now final_name) { rules = rs }))
                (sym (check_parsed-rules _ rules parsed))
              ∙ h3)),
      )

  pub duplicated_profile-ok :
      (source_id : Option Uuid) (id : Uuid) (now : ℕ) (new_name : Text) (fs : Files)
      (made : Profile A)
      → duplicated_profile A source_id id now new_name fs ≡ ok made
      → (k : Uuid) × (source : Profile A) × (final_name : Text) × (source_id ≡ some k)
        × (load_profile k fs ≡ ok source)
        × (resolve_name_conflict A new_name fs ≡ ok final_name)
        × (made ≡ copy_of A id now final_name source)
  unfolding duplicated_profile
  duplicated_profile-ok source_id id now new_name fs made h =
      let (named, h1, _) = >>=-ok (check_name new_name) _ h in
      let (k, h2, read) = >>=-ok (or_invalid _ source_id) _ h1 in
      let (source, h3, loaded) = >>=-ok (map_err storage_error (load_profile {A = A} k fs)) _ h2 in
      let (final_name, h4, resolved) = >>=-ok (resolve_name_conflict A new_name fs) _ h3 in
      (
        k,
        source,
        final_name,
        or_invalid-ok _ source_id read,
        map_err-eq-ok storage_error _ loaded,
        resolved,
        sym (ok-inj h4),
      )
