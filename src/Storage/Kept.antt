-- ===== src/Storage/Kept.antt =====
-- What a save leaves alone, and what a deletion removes.
use m_host.Common.{
  Text, ℕ, Bool, List, true, false, ◌||◌, Option, none, some, [], ◌∷◌, if◌then◌else◌, is_some, ◌≡◌,
  ◌==◌, ◌≢◌, inl, inr, refl, ap, ◌∙◌, arith, Bool-cases, Option-cases,
}
use m_host.Common.Result.{ok, err}
use m_host.Core.Errors.{profile_not_found}
use m_host.Core.Models.{Uuid, Profile, ProfileMode, hosts, dns}
use m_host.Storage.Files.{
  File, Dir, Files, get_file, put_file, remove_file, dir_of, set_dir, other_mode, get_file-put_file,
  get_file-remove_file,
}
use m_host.Storage.Profiles.{
  Json, Disk, choose_path, delete_from, delete_profile, read_path, load_profile, write_profile,
  clean_stale, write_and_clean, save_profile,
}

remove_file-absent : (id : Uuid) (d : Dir) → get_file id d ≡ none → remove_file id d ≡ d
unfolding get_file remove_file
remove_file-absent id [] h = refl
remove_file-absent id ((k, f) ∷ d) h = elim (Bool-cases (k == id)) [
  | inl same ↦ absurd (ground (arith, same, h))
  | inr other ↦
      rw other (ap (λ rest. (k, f) ∷ rest) (remove_file-absent id d (ground (arith, other, h))))
]

-- While removals succeed, a deletion reports success exactly when a file of the profile stood in
-- one of the two directories, and takes the files out of both.
pub delete_profile_lem :
    (disk : Disk) (id : Uuid) (fs : Files)
    → disk.removes ≡ true
    → delete_profile disk id fs ≡ (
      (if is_some (get_file id fs.hosts_dir) || is_some (get_file id fs.dns_dir)
          then ok tt
          else err (profile_not_found id)),
      record { hosts_dir = remove_file id fs.hosts_dir; dns_dir = remove_file id fs.dns_dir },
    )
unfolding delete_profile delete_from
delete_profile_lem disk id fs on = elim (Option-cases (get_file id fs.hosts_dir)) [
  | inl no_hosts ↦ elim (Option-cases (get_file id fs.dns_dir)) [
    | inl no_dns ↦
        rw
          (
            no_hosts,
            no_dns,
            remove_file-absent id fs.hosts_dir no_hosts,
            remove_file-absent id fs.dns_dir no_dns,
          )
          refl
    | inr (f, in_dns) ↦ rw (no_hosts, in_dns, on, remove_file-absent id fs.hosts_dir no_hosts) refl
  ]
  | inr (f, in_hosts) ↦ elim (Option-cases (get_file id fs.dns_dir)) [
    | inl no_dns ↦ rw (in_hosts, no_dns, on, remove_file-absent id fs.dns_dir no_dns) refl
    | inr (g, in_dns) ↦ rw (in_hosts, in_dns, on) refl
  ]
]

-- Two states of the disk hold the same file of `k` in each directory.
pub record IsSameFor (k : Uuid) (fs gs : Files) : Type 0 where
  pub same_hosts : get_file k fs.hosts_dir ≡ get_file k gs.hosts_dir
  pub same_dns : get_file k fs.dns_dir ≡ get_file k gs.dns_dir

IsSameFor-refl : (k : Uuid) (fs : Files) → IsSameFor k fs fs
IsSameFor-refl k fs = record { same_hosts = refl; same_dns = refl }

IsSameFor-set_dir :
    (k : Uuid) (m : ProfileMode) (d : Dir) (fs gs : Files)
    → get_file k d ≡ get_file k (dir_of m gs)
    → IsSameFor k fs gs
    → IsSameFor k (set_dir m d fs) gs
IsSameFor-set_dir k hosts d fs gs h s = record { same_hosts = h; same_dns = s.same_dns }
IsSameFor-set_dir k dns d fs gs h s = record { same_hosts = s.same_hosts; same_dns = h }

same_dir :
    (k : Uuid) (m : ProfileMode) (fs gs : Files)
    → IsSameFor k fs gs
    → get_file k (dir_of m fs) ≡ get_file k (dir_of m gs)
same_dir k hosts fs gs s = s.same_hosts
same_dir k dns fs gs s = s.same_dns

delete_from-IsSameFor :
    (disk : Disk) (id k : Uuid) (modes : List ProfileMode) (removed : Bool) (fs gs : Files)
    → (id == k) ≡ false
    → IsSameFor k fs gs
    → IsSameFor k (delete_from disk id modes removed fs).1 gs
unfolding delete_from
delete_from-IsSameFor disk id k [] removed fs gs other s = s
delete_from-IsSameFor disk id k (m ∷ modes) removed fs gs other s =
    elim (Bool-cases (is_some (get_file id (dir_of m fs)))) [
      | inr absent ↦ rw absent (delete_from-IsSameFor disk id k modes removed fs gs other s)
      | inl found ↦ elim (Bool-cases disk.removes) [
        | inr off ↦ rw (found, off) s
        | inl on ↦
            rw (found, on)
              (delete_from-IsSameFor disk id k modes true
                (set_dir m (remove_file id (dir_of m fs)) fs) gs other
                (IsSameFor-set_dir k m (remove_file id (dir_of m fs)) fs gs
                  (get_file-remove_file k id (dir_of m fs) ∙ rw other (same_dir k m fs gs s)) s))
      ]
    ]

module _ {A : Type 0} ⦃json : Json A⦄ where
  clean_stale-IsSameFor :
      (disk : Disk) (k : Uuid) (p : Profile A) (fs gs : Files)
      → (p.id == k) ≡ false
      → IsSameFor k fs gs
      → IsSameFor k (clean_stale disk p fs).1 gs
  unfolding clean_stale
  clean_stale-IsSameFor disk k p fs gs other s =
      let stale = dir_of (other_mode p.mode) fs in
      elim (Bool-cases (is_some (get_file p.id stale))) [
        | inr gone ↦ rw gone s
        | inl found ↦ elim (Bool-cases disk.removes) [
          | inr off ↦ rw (found, off) s
          | inl on ↦
              rw (found, on)
                (IsSameFor-set_dir k (other_mode p.mode) (remove_file p.id stale) fs gs
                  (get_file-remove_file k p.id stale
                    ∙ rw other (same_dir k (other_mode p.mode) fs gs s))
                  s)
        ]
      ]

  write_profile-IsSameFor :
      (k : Uuid) (now : ℕ) (text : Text) (p : Profile A) (fs : Files)
      → (p.id == k) ≡ false
      → IsSameFor k (write_profile now text p fs) fs
  unfolding write_profile
  write_profile-IsSameFor k now text p fs other =
      let new : File = record { content = some text; modified = some now } in
      IsSameFor-set_dir k p.mode (put_file p.id new (dir_of p.mode fs)) fs fs
        (get_file-put_file k p.id new (dir_of p.mode fs) ∙ rw other refl) (IsSameFor-refl k fs)

  save_profile-IsSameFor :
      (disk : Disk) (now : ℕ) (k : Uuid) (p : Profile A) (fs : Files)
      → (p.id == k) ≡ false
      → IsSameFor k (save_profile disk now p fs).1 fs
  unfolding save_profile write_and_clean
  save_profile-IsSameFor disk now k p fs other = elim (Bool-cases disk.creates) [
    | inr off ↦ rw off (IsSameFor-refl k fs)
    | inl on ↦ elim (Option-cases (json.to_string_pretty p)) [
      | inl failed ↦ rw (on, failed) (IsSameFor-refl k fs)
      | inr (text, printed) ↦ elim (Bool-cases disk.writes) [
        | inr off ↦ rw (on, printed, off) (IsSameFor-refl k fs)
        | inl writes ↦
            rw (on, printed, writes)
              (clean_stale-IsSameFor disk k p (write_profile now text p fs) fs other
                (write_profile-IsSameFor k now text p fs other))
      ]
    ]
  ]

  load-IsSameFor :
      (k : Uuid) (fs gs : Files)
      → IsSameFor k fs gs
      → load_profile {A = A} k fs ≡ load_profile {A = A} k gs
  unfolding load_profile
  load-IsSameFor k fs gs s =
      rw (s.same_hosts, s.same_dns)
        (read_same (choose_path (get_file k gs.hosts_dir) (get_file k gs.dns_dir)))
    where
      read_same :
          (path : Option ProfileMode) → read_path {A = A} k path fs ≡ read_path {A = A} k path gs
      read_same none = refl
      read_same (some m) = rw (same_dir k m fs gs s) refl

  -- A save, whether it succeeds or fails at any of its steps, changes nothing that a load of another
  -- profile returns.
  pub load-save_other :
      (disk : Disk) (now : ℕ) (k : Uuid) (p : Profile A) (fs : Files)
      → p.id ≢ k
      → load_profile {A = A} k (save_profile disk now p fs).1 ≡ load_profile {A = A} k fs
  load-save_other disk now k p fs other =
      load-IsSameFor k (save_profile disk now p fs).1 fs
        (save_profile-IsSameFor disk now k p fs (ground (arith, other)))

  -- A deletion, whether it succeeds or fails, changes nothing that a load of another profile returns.
  pub load-delete_other :
      (disk : Disk) (id k : Uuid) (fs : Files)
      → id ≢ k
      → load_profile {A = A} k (delete_profile disk id fs).1 ≡ load_profile {A = A} k fs
  unfolding delete_profile
  load-delete_other disk id k fs other = load-IsSameFor k (delete_profile disk id fs).1 fs (
      delete_from-IsSameFor disk id k (hosts ∷ dns ∷ []) false fs fs (ground (arith, other))
        (IsSameFor-refl k fs))
