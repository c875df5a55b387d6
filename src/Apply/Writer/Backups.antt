-- ===== src/Apply/Writer/Backups.antt =====
-- The number of backups, and what reads back.
use m_host.Common.{
  Text, ℕ, zero, suc, ◌-◌, ◌≤◌, ◌<◌, ◌==◌, leb, not, Bool, true, false, List, [], ◌∷◌, length,
  filter, take, drop, ◌≡◌, refl, ap, ◌∙◌, arith, Bool-cases, inl, inr,
}
use m_host.Common.Result.{ok}
use m_host.Common.Sort.{sort_by, insert_by}
use m_host.Apply.Writer.{
  Backup, System, Platform, max_backups, prune_old_backups, put_backup, backup_of, create_backup,
  read_backup,
}

length-insert_by :
    {A : Type 0} (le : A → A → Bool) (x : A) (ys : List A)
    → length (insert_by le x ys) ≡ suc (length ys)
unfolding insert_by
length-insert_by le x [] = refl
length-insert_by le x (y ∷ ys) = ground (arith, length-insert_by le x ys)

length-sort_by : {A : Type 0} (le : A → A → Bool) (xs : List A) → length (sort_by le xs) ≡ length xs
unfolding sort_by
length-sort_by le [] = refl
length-sort_by le (x ∷ xs) =
    length-insert_by le x (sort_by le xs) ∙ ap (λ n. suc n) (length-sort_by le xs)

length-drop : {A : Type 0} (n : ℕ) (xs : List A) → length (drop n xs) ≡ length xs - n
length-drop zero xs = omega arith
length-drop (suc n) [] = omega arith
length-drop (suc n) (x ∷ xs) = length-drop n xs ∙ omega arith

filter-none : {A : Type 0} (p : A → Bool) (xs : List A) → ((a : A) → p a ≡ false) → filter p xs ≡ []
filter-none p [] h = refl
filter-none p (x ∷ xs) h = rw (h x) (filter-none p xs h)

-- Where every deletion succeeds, pruning reports success and leaves ten backups at most.
pub prune_old_backups-length :
    (deletes : Backup → Bool) (backups : List Backup)
    → ((b : Backup) → deletes b ≡ true)
    → ((prune_old_backups deletes backups).0 ≡ ok tt)
      × (length (prune_old_backups deletes backups).1 ≤ max_backups)
unfolding prune_old_backups
prune_old_backups-length deletes backups h =
    let sorted = sort_by (λ a b. leb a.modified b.modified) backups in
    let n = length backups - max_backups in
    elim (Bool-cases (leb (length backups) max_backups)) [
      | inl few ↦ rw few (refl, ground (arith, few))
      | inr many ↦
          let some_old : (0 == n) ≡ false = ground (arith, many) in
          rw
            (many, filter-none (λ b. not (deletes b)) (take n sorted) (λ b. ap not (h b)), some_old)
            (
              refl,
              omega (
                arith,
                length-drop n sorted,
                length-sort_by (λ a b. leb a.modified b.modified) backups,
              ),
            )
    ]

read_backup-put_backup :
    (now : ℕ) (t : Text) (bs : List Backup)
    → read_backup now (put_backup (backup_of now t) bs) ≡ ok t
unfolding read_backup put_backup
read_backup-put_backup now t [] = ground arith
read_backup-put_backup now t (b ∷ bs) = elim (Bool-cases (b.second == now)) [
  | inl same ↦ rw same (ground arith)
  | inr other ↦ rw other (rw other (read_backup-put_backup now t bs))
]

length-put_backup : (new : Backup) (bs : List Backup) → length (put_backup new bs) ≤ suc (length bs)
unfolding put_backup
length-put_backup new [] = omega arith
length-put_backup new (b ∷ bs) = ground (arith, length-put_backup new bs)

-- While fewer than ten backups stand, a backup that is written reads back, and the hosts file stays.
pub create_backup-reads :
    (host : Platform) (current : Text) (s : System)
    → host.backs_up ≡ true
    → length s.backups < max_backups
    → (create_backup host current s).0 ≡ ok host.now
      × (read_backup host.now (create_backup host current s).1.backups ≡ ok current)
      × ((create_backup host current s).1.hosts_file ≡ s.hosts_file)
unfolding create_backup prune_old_backups
create_backup-reads host current s on few =
    let put = put_backup (backup_of host.now current) s.backups in
    let fits : leb (length put) max_backups ≡ true =
      ground (arith, few, length-put_backup (backup_of host.now current) s.backups) in
    rw (on, fits) (refl, read_backup-put_backup host.now current s.backups, refl)
