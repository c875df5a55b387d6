-- ===== src/Commands/ProfileIo/Created.antt =====
-- What a profile that was imported or duplicated is, and where it is found.
use m_host.Common.{
  Text, ℕ, ◌≤◌, Bool, true, false, Option, some, List, map, ◌≡◌, ◌≢◌, refl, sym, ap, subst, ◌∙◌,
  arith, if◌then◌else◌, ltb, inl, inr, All, all,
}
use m_host.Common.Result.{ok-inj, Result, ok, err, map_err, ◌>>◌, Result-cases}
use m_host.Common.Sort.{mem_text}
use m_host.Core.Ip.{IpAddr}
use m_host.Core.Models.{Uuid, Profile, new_profile}
use m_host.Hosts.Parser.{parse}
use m_host.Hosts.Validator.{is_valid_domain}
use m_host.Storage.Files.{Files}
use m_host.Storage.Profiles.{Json, saved_form, Disk, load_profile, save_profile, list_profiles}
use m_host.Storage.Saved.{load-save_profile}
use m_host.Storage.Kept.{load-save_other}
use m_host.Commands.ProfileIo.{
  IoError, too_large, resolve_name_conflict, save_new, imported_profile, import_profile, copy_of,
  duplicated_profile, duplicate_profile, storage_error, profile_from_json, import_profile_from_json,
  import_profile_from_file, is_json, max_file_read_size,
}
use m_host.Commands.ProfileIo.Names.{free_name_lem}
use m_host.Commands.ProfileIo.Steps.{
  imported_profile-ok, duplicated_profile-ok, profile_from_json-ok,
}

module _ (A : Type 0) ⦃ip : IpAddr A⦄ ⦃json : Json A⦄ where
  abbrev pub names_of : Files → List Text
  names_of fs = map (λ p. p.name) (list_profiles {A = A} fs)

  -- The profile loads from the new files, but for the line numbers of its rules, every other id loads as before, and the name is that of
  -- no hosts profile that there was; the profile is neither enabled nor protected.
  abbrev pub IsCreated : Uuid → Profile A → Files → Files → Type 0
  IsCreated id made fs after =
      (made.id ≡ id)
      × (made.enabled ≡ false)
      × (made.protected ≡ false)
      × (mem_text made.name (names_of fs) ≡ false)
      × (load_profile id after ≡ ok (saved_form made))
      × ((k : Uuid) → id ≢ k → load_profile {A = A} k after ≡ load_profile {A = A} k fs)

  save_new-ok :
      (disk : Disk) (now : ℕ) (fs : Files) (r : Result IoError (Profile A)) (made : Profile A)
      → (save_new A disk now fs r).0 ≡ ok made
      → (r ≡ ok made)
        × ((save_profile disk now made fs).0 ≡ ok tt)
        × ((save_new A disk now fs r).1 ≡ (save_profile disk now made fs).1)
  save_new-ok disk now fs (err why) made h = absurd (cc)
  save_new-ok disk now fs (ok p) made h = elim (Result-cases (save_profile disk now p fs).0) [
    | inl (u, e) ↦
        let same : ok p ≡ ok made = sym (ap (λ s. map_err storage_error s >> ok p) e) ∙ h in
        subst
          (λ q.
            (Path (Result IoError (Profile A)) (ok p) (ok q))
            × ((save_profile disk now q fs).0 ≡ ok tt)
            × ((save_profile disk now p fs).1 ≡ (save_profile disk now q fs).1))
          (ok-inj same) (refl, e, refl)
    | inr (why, e) ↦
        let same : err (storage_error why) ≡ ok made =
          sym (ap (λ s. map_err storage_error s >> ok p) e) ∙ h in
        absurd (cc)
  ]

  save_new-IsCreated :
      (id : Uuid) (disk : Disk) (now : ℕ) (fs : Files) (r : Result IoError (Profile A))
      (made : Profile A)
      → (save_new A disk now fs r).0 ≡ ok made
      → made.id ≡ id
      → made.enabled ≡ false
      → made.protected ≡ false
      → mem_text made.name (names_of fs) ≡ false
      → IsCreated id made fs (save_new A disk now fs r).1
  save_new-IsCreated id disk now fs r made h same off open_to free =
      let (given, saved, after) = save_new-ok disk now fs r made h in
      (
        same,
        off,
        open_to,
        free,
        ap (λ f. load_profile id f) after
            ∙ ap (λ i. load_profile i (save_profile disk now made fs).1) (sym same)
            ∙ (load-save_profile disk now made fs saved).1,
        λ k other.
            ap (λ f. load_profile {A = A} k f) after
            ∙ load-save_other disk now k made fs (λ e. other (sym same ∙ e)),
      )

  resolve_name_conflict-free :
      (name : Text) (fs : Files) (new : Text)
      → resolve_name_conflict A name fs ≡ ok new
      → mem_text new (names_of fs) ≡ false
  unfolding resolve_name_conflict
  resolve_name_conflict-free name fs new h = (free_name_lem (names_of fs) name).0 new h

  import_profile-creates :
      (uuids : ℕ → Uuid) (id : Uuid) (disk : Disk) (now : ℕ) (name text : Text) (fs : Files)
      (made : Profile A)
      → (import_profile A uuids id disk now name text fs).0 ≡ ok made
      → IsCreated id made fs (import_profile A uuids id disk now name text fs).1
        × (made.rules ≡ (parse uuids text).rules)
  unfolding import_profile new_profile
  import_profile-creates uuids id disk now name text fs made h =
      let r = imported_profile A uuids id now name text fs in
      let (final_name, resolved, e) =
        imported_profile-ok A uuids id now name text fs made (save_new-ok disk now fs r made h).0 in
      (
        save_new-IsCreated id disk now fs r made h (ap (λ p. p.id) e) (ap (λ p. p.enabled) e)
            (ap (λ p. p.protected) e)
            (ap (λ n. mem_text n (names_of fs)) (ap (λ p. p.name) e)
              ∙ resolve_name_conflict-free name fs final_name resolved),
        ap (λ p. p.rules) e,
      )

  import_profile_from_json-creates :
      (id : Uuid) (disk : Disk) (now : ℕ) (name text : Text) (fs : Files) (made : Profile A)
      → (import_profile_from_json A id disk now name text fs).0 ≡ ok made
      → IsCreated id made fs (import_profile_from_json A id disk now name text fs).1
        × ((p : Profile A) × (json.from_str text ≡ some p)
            × (made.rules ≡ p.rules)
            × All (λ r. all is_valid_domain r.domains ≡ true) p.rules)
  unfolding import_profile_from_json
  import_profile_from_json-creates id disk now name text fs made h =
      let r = profile_from_json A id now name text fs in
      let (p, final_name, read, valid, resolved, e) =
        profile_from_json-ok A id now name text fs made (save_new-ok disk now fs r made h).0 in
      (
        save_new-IsCreated id disk now fs r made h (ap (λ p. p.id) e) (ap (λ p. p.enabled) e)
            (ap (λ p. p.protected) e)
            (ap (λ n. mem_text n (names_of fs)) (ap (λ p. p.name) e)
              ∙ resolve_name_conflict-free name fs final_name resolved),
        (p, read, ap (λ p. p.rules) e, valid),
      )

  by_format :
      (uuids : ℕ → Uuid) (id : Uuid) (disk : Disk) (now : ℕ) (name content : Text) (fs : Files)
      (made : Profile A) (large is_json : Bool)
      → let run =
          if large
          then (err too_large, fs)
          else if is_json
          then import_profile_from_json A id disk now name content fs
          else import_profile A uuids id disk now name content fs in
        run.0 ≡ ok made
        → IsCreated id made fs run.1
          × (large ≡ false)
          × (is_json ≡ true
              → (p : Profile A) × (json.from_str content ≡ some p)
                × (made.rules ≡ p.rules)
                × All (λ r. all is_valid_domain r.domains ≡ true) p.rules)
          × (is_json ≡ false → made.rules ≡ (parse uuids content).rules)
  by_format uuids id disk now name content fs made true j h = absurd (cc)
  by_format uuids id disk now name content fs made false true h =
      let (created, facts) = import_profile_from_json-creates id disk now name content fs made h in
      (created, refl, λ e. facts, λ e. absurd (cc))
  by_format uuids id disk now name content fs made false false h =
      let (created, same) = import_profile-creates uuids id disk now name content fs made h in
      (created, refl, λ e. absurd (cc), λ e. same)

  -- An import of a file that succeeds creates a profile that is new, from a file of at most 1 MiB.
  -- It loads, but for the line numbers of its rules. Its rules are those of the JSON, whose domains are all valid, where the extension is json, and
  -- those that the hosts text parses to elsewhere.
  pub import_profile_from_file-creates :
      (uuids : ℕ → Uuid) (id : Uuid) (disk : Disk) (now : ℕ) (name : Text) (size : ℕ)
      (extension : Option Text) (content : Text) (fs : Files) (made : Profile A)
      → let run =
          import_profile_from_file A uuids id disk now name (size, extension, some content) fs in
        run.0 ≡ ok made
        → IsCreated id made fs run.1
          × (size ≤ max_file_read_size)
          × (is_json extension ≡ true
              → (p : Profile A) × (json.from_str content ≡ some p)
                × (made.rules ≡ p.rules)
                × All (λ r. all is_valid_domain r.domains ≡ true) p.rules)
          × (is_json extension ≡ false → made.rules ≡ (parse uuids content).rules)
  unfolding import_profile_from_file
  import_profile_from_file-creates uuids id disk now name size extension content fs made h =
      let (created, small, from_json, from_text) =
        by_format uuids id disk now name content fs made (ltb max_file_read_size size)
          (is_json extension) h in
      (created, ground (arith, small), from_json, from_text)

  -- A duplication that succeeds creates a profile that is new and loads, but for the line numbers of its rules, with the rules, the mode, the description and the tags
  -- of the profile that the given id loads.
  pub duplicate_profile-creates :
      (source_id : Option Uuid) (id : Uuid) (disk : Disk) (now : ℕ) (new_name : Text) (fs : Files)
      (made : Profile A)
      → (duplicate_profile A source_id id disk now new_name fs).0 ≡ ok made
      → IsCreated id made fs (duplicate_profile A source_id id disk now new_name fs).1
        × ((k : Uuid) × (source : Profile A) × (source_id ≡ some k)
            × (load_profile k fs ≡ ok source)
            × (made.rules ≡ source.rules)
            × (made.mode ≡ source.mode)
            × (made.description ≡ source.description)
            × (made.tags ≡ source.tags))
  unfolding duplicate_profile copy_of new_profile
  duplicate_profile-creates source_id id disk now new_name fs made h =
      let r = duplicated_profile A source_id id now new_name fs in
      let (k, source, final_name, read, loaded, resolved, e) =
        duplicated_profile-ok A source_id id now new_name fs made
          (save_new-ok disk now fs r made h).0 in
      (
        save_new-IsCreated id disk now fs r made h (ap (λ p. p.id) e) (ap (λ p. p.enabled) e)
            (ap (λ p. p.protected) e)
            (ap (λ n. mem_text n (names_of fs)) (ap (λ p. p.name) e)
              ∙ resolve_name_conflict-free new_name fs final_name resolved),
        (
          k,
          source,
          read,
          loaded,
          ap (λ p. p.rules) e,
          ap (λ p. p.mode) e,
          ap (λ p. p.description) e,
          ap (λ p. p.tags) e,
        ),
      )
