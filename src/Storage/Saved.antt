-- ===== src/Storage/Saved.antt =====
-- What a load finds after a save or a deletion, also one that stops between its two steps.
use m_host.Common.{
  Text, ℕ, true, Option, none, some, ◌≡◌, inl, inr, refl, ap, sym, ◌∙◌, ◌<◌, arith, Bool-cases,
  Option-cases,
}
use m_host.Common.Result.{ok}
use m_host.Core.Models.{Uuid, Profile, ProfileMode, hosts, dns}
use m_host.Storage.Files.{
  File, Dir, Files, get_file, put_file, remove_file, dir_of, set_dir, other_mode, get_file-put_file,
  get_file-remove_file,
}
use m_host.Storage.Profiles.{
  Json, saved_form, Disk, choose_path, parse_profile, read_file, read_path, load_profile,
  write_profile, clean_stale, write_and_clean, save_profile,
}

-- A file of this profile in the directory of the other mode was written before `now`.
abbrev IsBefore : ℕ → Option File → Type 0
IsBefore now none = Unit
IsBefore now (some f) = (t : ℕ) × (f.modified ≡ some t) × (t < now)

get-put-same : (id : Uuid) (f : File) (d : Dir) → get_file id (put_file id f d) ≡ some f
get-put-same id f d = ground (arith, get_file-put_file id id f d)

choose-hosts :
    (new : File) (now : ℕ) (stale : Option File)
    → new.modified ≡ some now
    → IsBefore now stale
    → choose_path (some new) stale ≡ some hosts
choose-hosts new now none h k = refl
choose-hosts new now (some f) h (t, is_t, older) = rw (is_t, h) (ground (arith, older))

choose-dns :
    (new : File) (now : ℕ) (stale : Option File)
    → new.modified ≡ some now
    → IsBefore now stale
    → choose_path stale (some new) ≡ some dns
choose-dns new now none h k = refl
choose-dns new now (some f) h (t, is_t, older) = rw (is_t, h) (ground (arith, older))

dir_of-set_dir : (m : ProfileMode) (d : Dir) (fs : Files) → dir_of m (set_dir m d fs) ≡ d
dir_of-set_dir hosts d fs = refl
dir_of-set_dir dns d fs = refl

dir_of-set_other :
    (m : ProfileMode) (d : Dir) (fs : Files) → dir_of m (set_dir (other_mode m) d fs) ≡ dir_of m fs
dir_of-set_other hosts d fs = refl
dir_of-set_other dns d fs = refl

get-remove-same : (id : Uuid) (d : Dir) → get_file id (remove_file id d) ≡ none
get-remove-same id d = ground (arith, get_file-remove_file id id d)

-- The file of `id` stands in the directory of `m` alone.
pub record IsSingle (m : ProfileMode) (id : Uuid) (f : File) (fs : Files) : Type 0 where
  pub here : get_file id (dir_of m fs) ≡ some f
  pub not_there : get_file id (dir_of (other_mode m) fs) ≡ none

module _ {A : Type 0} ⦃json : Json A⦄ where
  abbrev pub IsStaleOlder : ℕ → Profile A → Files → Type 0
  IsStaleOlder now p fs = IsBefore now (get_file p.id (dir_of (other_mode p.mode) fs))

  load-put :
      (m : ProfileMode) (id : Uuid) (now : ℕ) (text : Text) (p : Profile A) (fs : Files)
      → json.from_str text ≡ some p
      → IsBefore now (get_file id (dir_of (other_mode m) fs))
      → load_profile id (
          set_dir m
            (put_file id (record { content = some text; modified = some now }) (dir_of m fs))
            fs)
        ≡ ok p
  unfolding load_profile read_path read_file parse_profile
  load-put hosts id now text p fs h k =
      let new : File = record { content = some text; modified = some now } in
      rw (get-put-same id new fs.hosts_dir) (
        rw
          (
            choose-hosts new now (get_file id fs.dns_dir) refl k,
            get-put-same id new fs.hosts_dir,
            h,
          )
          refl)
  load-put dns id now text p fs h k =
      let new : File = record { content = some text; modified = some now } in
      rw (get-put-same id new fs.dns_dir) (
        rw (choose-dns new now (get_file id fs.hosts_dir) refl k, get-put-same id new fs.dns_dir, h)
          refl)

  -- A crash after the new file is written and before the file of the other mode is removed loses
  -- nothing: if that file is older than the write, a load returns the profile that was saved, but for
  -- the line numbers of its rules.
  pub load-write_profile :
      (now : ℕ) (text : Text) (p : Profile A) (fs : Files)
      → json.to_string_pretty p ≡ some text
      → IsStaleOlder now p fs
      → load_profile p.id (write_profile now text p fs) ≡ ok (saved_form p)
  unfolding write_profile
  load-write_profile now text p fs h k =
      load-put p.mode p.id now text (saved_form p) fs (json.from_str-to_string_pretty p text h) k

  clean_stale-IsSingle :
      (disk : Disk) (p : Profile A) (f : File) (fs : Files)
      → get_file p.id (dir_of p.mode fs) ≡ some f
      → (clean_stale disk p fs).0 ≡ ok tt
      → IsSingle p.mode p.id f (clean_stale disk p fs).1
  unfolding clean_stale
  clean_stale-IsSingle disk p f fs h e =
      let stale = dir_of (other_mode p.mode) fs in
      let kept : Dir = remove_file p.id stale in
      elim (Option-cases (get_file p.id stale)) [
        | inl gone ↦ rw gone (record { here = h; not_there = gone })
        | inr (g, found) ↦ elim (Bool-cases disk.removes) [
          | inl on ↦
              rw (found, on)
                (record {
                  here = ap (get_file p.id) (dir_of-set_other p.mode kept fs) ∙ h;
                  not_there =
                      ap (get_file p.id) (dir_of-set_dir (other_mode p.mode) kept fs)
                      ∙ get-remove-same p.id stale;
                })
          | inr off ↦ absurd (ground (arith, found, off, e))
        ]
      ]

  get-write_profile :
      (now : ℕ) (text : Text) (p : Profile A) (fs : Files)
      → get_file p.id (dir_of p.mode (write_profile now text p fs))
        ≡ some (record { content = some text; modified = some now })
  unfolding write_profile
  get-write_profile now text p fs =
      let new : File = record { content = some text; modified = some now } in
      ap (get_file p.id) (dir_of-set_dir p.mode (put_file p.id new (dir_of p.mode fs)) fs)
      ∙ get-put-same p.id new (dir_of p.mode fs)

  load-IsSingle :
      (m : ProfileMode) (id : Uuid) (f : File) (text : Text) (p : Profile A) (fs : Files)
      → f.content ≡ some text
      → json.from_str text ≡ some p
      → IsSingle m id f fs
      → load_profile id fs ≡ ok p
  unfolding load_profile read_path read_file parse_profile
  load-IsSingle hosts id f text p fs c h single =
      rw (single.here, single.not_there) (rw (single.here, c, h) refl)
  load-IsSingle dns id f text p fs c h single =
      rw (single.here, single.not_there) (rw (single.here, c, h) refl)

  save-steps :
      (disk : Disk) (now : ℕ) (text : Text) (p : Profile A) (fs : Files)
      → disk.creates ≡ true
      → json.to_string_pretty p ≡ some text
      → disk.writes ≡ true
      → save_profile disk now p fs ≡ clean_stale disk p (write_profile now text p fs)
  unfolding save_profile write_and_clean
  save-steps disk now text p fs on printed writes = rw (on, printed, writes) refl

  -- After a save that reports success, on any disk and over any files, the profile has one file, in
  -- the directory of its mode, and a load returns it, but for the line numbers of its rules.
  pub load-save_profile :
      (disk : Disk) (now : ℕ) (p : Profile A) (fs : Files)
      → (save_profile disk now p fs).0 ≡ ok tt
      → ((f : File) × IsSingle p.mode p.id f (save_profile disk now p fs).1)
        × (load_profile p.id (save_profile disk now p fs).1 ≡ ok (saved_form p))
  unfolding save_profile write_and_clean
  load-save_profile disk now p fs e = elim (Bool-cases disk.creates) [
    | inr off ↦ absurd (ground (arith, off, e))
    | inl on ↦ elim (Option-cases (json.to_string_pretty p)) [
      | inl failed ↦ absurd (ground (arith, on, failed, e))
      | inr (text, printed) ↦ elim (Bool-cases disk.writes) [
        | inr off ↦ absurd (ground (arith, on, printed, off, e))
        | inl writes ↦
            let new : File = record { content = some text; modified = some now } in
            let mid = write_profile now text p fs in
            let steps = save-steps disk now text p fs on printed writes in
            let single =
              clean_stale-IsSingle disk p new mid (get-write_profile now text p fs)
                (sym (ap (λ r. r.0) steps) ∙ e) in
            rw steps (
              (new, single),
              load-IsSingle p.mode p.id new text (saved_form p) (clean_stale disk p mid).1 refl
                  (json.from_str-to_string_pretty p text printed) single,
            )
      ]
    ]
  ]
