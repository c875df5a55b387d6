-- ===== src/Commands/Exclusive.antt =====
-- Disabling the other profiles: what the files hold afterwards, and when nothing is written.
use m_host.Common.{
  ℕ, List, [], ◌∷◌, map, filter, All, ◌≡◌, ◌≢◌, refl, sym, ap, ◌∙◌, subst, arith, Bool-cases, inl,
  inr,
}
use m_host.Common.Result.{Result, ok, err}
use m_host.Core.Errors.{StorageError}
use m_host.Core.Models.{Uuid, Profile}
use m_host.Storage.Files.{Files}
use m_host.Storage.Profiles.{Json, saved_form, Disk, load_profile, save_profile, list_profiles}
use m_host.Storage.Saved.{load-save_profile}
use m_host.Storage.Kept.{load-save_other}
use m_host.Commands.Apply.{save_all, disable_other_profiles, disabled, is_other_enabled}

module _ {A : Type 0} where
  -- No two profiles of the list have the same id.
  abbrev pub Distinct : List (Profile A) → Type 0
  Distinct [] = Unit
  Distinct (p ∷ ps) = All (λ q. q.id ≢ p.id) ps × Distinct ps

  abbrev pub to_disable : Uuid → List (Profile A) → List (Profile A)
  to_disable id ps = filter (is_other_enabled id) ps

module _ (A : Type 0) ⦃json : Json A⦄ where
  save_all-steps :
      (disk : Disk) (now : ℕ) (p : Profile A) (ps : List (Profile A)) (fs : Files)
      → (save_all A disk now (p ∷ ps) fs).0 ≡ ok tt
      → ((save_profile disk now p fs).0 ≡ ok tt)
        × (save_all A disk now (p ∷ ps) fs ≡ save_all A disk now ps (save_profile disk now p fs).1)
  unfolding save_all
  save_all-steps disk now p ps fs h = step (save_profile disk now p fs).0 refl
    where
      step :
          (r : Result StorageError Unit)
          → (save_profile disk now p fs).0 ≡ r
          → ((save_profile disk now p fs).0 ≡ ok tt)
            × (save_all A disk now (p ∷ ps) fs
                ≡ save_all A disk now ps (save_profile disk now p fs).1)
      step (ok u) e = (e, rw (save_all, e) refl)
      step (err why) e = absurd (ground (arith, e, h))

  save_all-other :
      (disk : Disk) (now : ℕ) (k : Uuid) (ps : List (Profile A)) (fs : Files)
      → All (λ q. q.id ≢ k) ps
      → (save_all A disk now ps fs).0 ≡ ok tt
      → load_profile {A = A} k (save_all A disk now ps fs).1 ≡ load_profile {A = A} k fs
  save_all-other disk now k [] fs others h = unfold save_all in refl
  save_all-other disk now k (p ∷ ps) fs others h =
      let (saved, steps) = save_all-steps disk now p ps fs h in
      let mid = (save_profile disk now p fs).1 in
      ap (λ r. load_profile {A = A} k r.1) steps
      ∙ save_all-other disk now k ps mid others.1 (sym (ap (λ r. r.0) steps) ∙ h)
      ∙ load-save_other disk now k p fs others.0

  pub save_all-load :
      (disk : Disk) (now : ℕ) (ps : List (Profile A)) (fs : Files)
      → Distinct ps
      → (save_all A disk now ps fs).0 ≡ ok tt
      → All (λ p. load_profile p.id (save_all A disk now ps fs).1 ≡ ok (saved_form p)) ps
  save_all-load disk now [] fs d h = tt
  save_all-load disk now (p ∷ ps) fs d h =
      let (saved, steps) = save_all-steps disk now p ps fs h in
      let mid = (save_profile disk now p fs).1 in
      let rest = sym (ap (λ r. r.0) steps) ∙ h in
      subst (λ r. All (λ q. load_profile q.id r.1 ≡ ok (saved_form q)) (p ∷ ps)) (sym steps)
        (
          save_all-other disk now p.id ps mid d.0 rest ∙ (load-save_profile disk now p fs saved).1,
          save_all-load disk now ps mid d.1 rest,
        )

  -- When disabling the other profiles reports success, and the enabled hosts profiles that the
  -- listing gives have distinct ids, every one of them but the excepted loads disabled and otherwise
  -- unchanged, but for the line numbers of its rules.
  pub disable_other_profiles-load :
      (disk : Disk) (now : ℕ) (except_id : Uuid) (fs : Files)
      → Distinct (map disabled (to_disable except_id (list_profiles {A = A} fs)))
      → (disable_other_profiles A disk now except_id fs).0 ≡ ok tt
      → All
          (λ p.
            load_profile p.id (disable_other_profiles A disk now except_id fs).1
            ≡ ok (saved_form p))
          (map disabled (to_disable except_id (list_profiles {A = A} fs)))
  unfolding disable_other_profiles
  disable_other_profiles-load disk now except_id fs d h =
      save_all-load disk now (map disabled (to_disable except_id (list_profiles {A = A} fs))) fs d h

  -- When disabling the other profiles reports success, it does not change what a load of the
  -- excepted profile gives.
  pub disable_other_profiles-keeps :
      (disk : Disk) (now : ℕ) (except_id : Uuid) (fs : Files)
      → (disable_other_profiles A disk now except_id fs).0 ≡ ok tt
      → load_profile {A = A} except_id (disable_other_profiles A disk now except_id fs).1
        ≡ load_profile {A = A} except_id fs
  unfolding disable_other_profiles
  disable_other_profiles-keeps disk now except_id fs h =
      save_all-other disk now except_id
        (map disabled (to_disable except_id (list_profiles {A = A} fs))) fs
        (others (list_profiles {A = A} fs)) h
    where
      others :
          (ps : List (Profile A))
          → All (λ q. q.id ≢ except_id) (map disabled (to_disable except_id ps))
      others [] = tt
      others (p ∷ ps) = elim (Bool-cases (is_other_enabled except_id p)) [
        | inl chosen ↦ rw chosen ((λ e. ground (arith, chosen, e)), others ps)
        | inr spared ↦ rw spared (others ps)
      ]
