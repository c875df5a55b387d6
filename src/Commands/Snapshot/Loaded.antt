-- ===== src/Commands/Snapshot/Loaded.antt =====
-- What the profiles of a snapshot load as after they replaced the others.
use m_host.Common.{
  ℕ, true, List, [], ◌∷◌, any, All, ◌==◌, ◌≡◌, ◌≢◌, refl, sym, ap, ◌∙◌, false≢true, arith,
  Bool-cases, inl, inr,
}
use m_host.Common.Result.{Result, ok, err}
use m_host.Core.Errors.{StorageError}
use m_host.Core.Models.{Uuid, Profile}
use m_host.Storage.Files.{Files}
use m_host.Storage.Profiles.{
  Json, saved_form, Disk, load_profile, delete_profile, list_all_profiles,
}
use m_host.Storage.Kept.{load-delete_other}
use m_host.Commands.Apply.{save_all}
use m_host.Commands.Exclusive.{Distinct, save_all-load}
use m_host.Commands.Snapshot.Loading.{extras, delete_all, delete_extras, replace_profiles}

module _ (A : Type 0) ⦃json : Json A⦄ where
  delete_all-other :
      (disk : Disk) (k : Uuid) (ps : List (Profile A)) (fs : Files)
      → All (λ p. p.id ≢ k) ps
      → load_profile {A = A} k (delete_all A disk ps fs).1 ≡ load_profile {A = A} k fs
  unfolding delete_all
  delete_all-other disk k [] fs others = refl
  delete_all-other disk k (p ∷ ps) fs (other, others) =
      by_result (delete_all-other disk k ps (delete_profile disk p.id fs).1 others)
        (delete_profile disk p.id fs).0
      ∙ load-delete_other disk p.id k fs other
    where
      by_result :
          load_profile {A = A} k (delete_all A disk ps (delete_profile disk p.id fs).1).1
            ≡ load_profile {A = A} k (delete_profile disk p.id fs).1
          → (r : Result StorageError Unit)
          → load_profile {A = A} k
              (elim r as (λ _. Result StorageError Unit × Files) [
                | ok _ ↦ delete_all A disk ps (delete_profile disk p.id fs).1
                | err e ↦ (err e, (delete_profile disk p.id fs).1)
              ]).1
            ≡ load_profile {A = A} k (delete_profile disk p.id fs).1
      by_result later (ok u) = later
      by_result later (err e) = refl

  extras-other :
      (kept current : List (Profile A)) (k : Uuid)
      → any (λ q. q.id == k) kept ≡ true
      → All (λ p. p.id ≢ k) (extras A kept current)
  extras-other kept [] k h = tt
  extras-other kept (p ∷ current) k h = elim (Bool-cases (any (λ q. q.id == p.id) kept)) [
    | inl there ↦ rw there (extras-other kept current k h)
    | inr absent ↦ rw absent (
      (λ e. false≢true (sym absent ∙ ap (λ i. any (λ q. q.id == i) kept) e ∙ h)),
      extras-other kept current k h,
    )
  ]

  kept_load :
      (disk : Disk) (kept current ps : List (Profile A)) (fs : Files)
      → ((k : Uuid) → any (λ q. q.id == k) ps ≡ true → any (λ q. q.id == k) kept ≡ true)
      → All (λ p. load_profile p.id fs ≡ ok (saved_form p)) ps
      → All
          (λ p.
            load_profile p.id (delete_all A disk (extras A kept current) fs).1 ≡ ok (saved_form p))
          ps
  kept_load disk kept current [] fs inside loads = tt
  kept_load disk kept current (p ∷ ps) fs inside (load, loads) = (
    delete_all-other disk p.id (extras A kept current) fs
          (extras-other kept current p.id (inside p.id (ground arith)))
        ∙ load,
    kept_load disk kept current ps fs (λ k h. inside k (ground (arith, h))) loads,
  )

  after_saves :
      (disk : Disk) (kept current : List (Profile A)) (r : Result StorageError Unit) (fs : Files)
      → (r ≡ ok tt → All (λ p. load_profile p.id fs ≡ ok (saved_form p)) kept)
      → (delete_extras A disk kept current (r, fs)).0 ≡ ok tt
      → All
          (λ p. load_profile p.id (delete_extras A disk kept current (r, fs)).1 ≡ ok (saved_form p))
          kept
  after_saves disk kept current (err e) fs saved h = absurd (cc)
  after_saves disk kept current (ok u) fs saved h =
      kept_load disk kept current kept fs (λ k e. e) (saved refl)

  -- Where the profiles of a snapshot have distinct ids, each of them loads as the snapshot has
  -- it, but for the line numbers of its rules, after they replaced the others without an error.
  pub replace_profiles-load :
      (disk : Disk) (now : ℕ) (profiles : List (Profile A)) (fs : Files)
      → Distinct profiles
      → (replace_profiles A disk now profiles fs).0 ≡ ok tt
      → All
          (λ p. load_profile p.id (replace_profiles A disk now profiles fs).1 ≡ ok (saved_form p))
          profiles
  unfolding replace_profiles
  replace_profiles-load disk now profiles fs distinct h =
      let saved = save_all A disk now profiles fs in
      after_saves disk profiles (list_all_profiles fs) saved.0 saved.1
        (λ e. save_all-load A disk now profiles fs distinct e) h
