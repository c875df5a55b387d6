-- ===== src/Apply/Merge/Sound.antt =====
-- Where the rules of a merge come from, and that none is in conflict.
use m_host.Common.{
  Text, Bool, true, false, not, List, [], ◌∷◌, any, All, All-imp, filter, map, ◌≡◌, refl, sym, ap,
  subst, Bool-cases, inl, inr, arith, text_leb,
}
use m_host.Common.Sort.{sort_by, insert_by, mem_text}
use m_host.Core.Ip.{IpAddr}
use m_host.Core.Models.{Profile, ResolvedRule}
use m_host.Apply.Merge.{
  Entry, all_rules, at_key, add_entry, ips_from, entries_from, conflicting, ips_at, patched,
  take_rules, build_conflicts, rule_at_most, merge,
}

module _ {A : Type 0} (Holds : A → Type 0) where
  pub All-filter : (p : A → Bool) (xs : List A) → All Holds xs → All Holds (filter p xs)
  All-filter p [] h = tt
  All-filter p (x ∷ xs) h = elim (Bool-cases (p x)) [
    | inl kept ↦ rw kept (h.0, All-filter p xs h.1)
    | inr dropped ↦ rw dropped (All-filter p xs h.1)
  ]

  All-insert_by :
      (le : A → A → Bool) (x : A) (ys : List A)
      → Holds x
      → All Holds ys
      → All Holds (insert_by le x ys)
  unfolding insert_by
  All-insert_by le x [] h k = (h, tt)
  All-insert_by le x (y ∷ ys) h k = elim (Bool-cases (le x y)) [
    | inl first ↦ rw first (h, k)
    | inr later ↦ rw later (k.0, All-insert_by le x ys h k.1)
  ]

  All-sort_by : (le : A → A → Bool) (xs : List A) → All Holds xs → All Holds (sort_by le xs)
  unfolding sort_by
  All-sort_by le [] h = tt
  All-sort_by le (x ∷ xs) h = All-insert_by le x (sort_by le xs) h.0 (All-sort_by le xs h.1)

All-map :
    {A B : Type 0} (Holds : B → Type 0) (f : A → B) (xs : List A)
    → All (λ a. Holds (f a)) xs
    → All Holds (map f xs)
All-map Holds f [] h = tt
All-map Holds f (x ∷ xs) h = (h.0, All-map Holds f xs h.1)

filter-holds : {A : Type 0} (p : A → Bool) (xs : List A) → All (λ a. p a ≡ true) (filter p xs)
filter-holds p [] = tt
filter-holds p (x ∷ xs) = elim (Bool-cases (p x)) [
  | inl kept ↦ rw kept (kept, filter-holds p xs)
  | inr dropped ↦ rw dropped (filter-holds p xs)
]

module _ {A : Type 0} ⦃ip : IpAddr A⦄ (Holds : ResolvedRule A → Type 0) where
  abbrev Patched : Entry A → Type 0
  Patched e = Holds (patched e)

  add_entry-All :
      (r : ResolvedRule A) (m : List (Entry A))
      → Holds r
      → All Patched m
      → All Patched (add_entry r m)
  unfolding add_entry
  add_entry-All r m h k = elim (Bool-cases (any (at_key r.domain r.ip) m)) [
    | inl there ↦ rw there k
    | inr fresh ↦ rw fresh (h, k)
  ]

  entries_from-All :
      (rs : List (ResolvedRule A)) (m : List (Entry A))
      → All Holds rs
      → All Patched m
      → All Patched (entries_from rs m)
  unfolding entries_from
  entries_from-All [] m h k = k
  entries_from-All (r ∷ rs) m h k =
      entries_from-All rs (add_entry r m) h.1 (add_entry-All r m h.0 k)

  take_rules-All :
      (d : Text) (ips : List A) (m : List (Entry A))
      → All Patched m
      → All Patched (take_rules d ips m).1
  unfolding take_rules
  take_rules-All d [] m h = h
  take_rules-All d (a ∷ ips) m h =
      take_rules-All d ips (filter (λ e. not (at_key d a e)) m)
        (All-filter Patched (λ e. not (at_key d a e)) m h)

  build_conflicts-All :
      (ds : List Text) (ips : List (Text × List A)) (m : List (Entry A))
      → All Patched m
      → All Patched (build_conflicts ds ips m).1
  unfolding build_conflicts
  build_conflicts-All [] ips m h = h
  build_conflicts-All (d ∷ ds) ips m h =
      build_conflicts-All ds ips (take_rules d (ips_at d ips) m).1
        (take_rules-All d (ips_at d ips) m h)

  -- Whatever holds of every enabled rule of every enabled profile holds of every merged rule, its
  -- domain, address and source alike.
  pub merge-All :
      (profiles : List (Profile A))
      → All Holds (all_rules profiles)
      → All Holds (merge profiles).rules
  unfolding merge
  merge-All profiles h =
      let rs = all_rules profiles in
      let ips = ips_from rs [] in
      let ds = sort_by text_leb (conflicting ips) in
      let left = (build_conflicts ds ips (entries_from rs [])).1 in
      let free = filter (λ e. not (mem_text e.domain ds)) left in
      All-sort_by Holds rule_at_most (map patched free) (
        All-map Holds patched free (
          All-filter Patched (λ e. not (mem_text e.domain ds)) left
            (build_conflicts-All ds ips (entries_from rs []) (entries_from-All rs [] h tt))))

module _ {A : Type 0} ⦃ip : IpAddr A⦄ where
  conflict_domains-same :
      (ds : List Text) (ips : List (Text × List A)) (m : List (Entry A))
      → map (λ c. c.domain) (build_conflicts ds ips m).0 ≡ ds
  unfolding build_conflicts
  conflict_domains-same [] ips m = refl
  conflict_domains-same (d ∷ ds) ips m =
      ap (λ xs. d ∷ xs) (conflict_domains-same ds ips (take_rules d (ips_at d ips) m).1)

  -- For any profiles, no merged rule is for a domain that the merge reports in conflict.
  pub merge-free :
      (profiles : List (Profile A))
      → All
          (λ r. mem_text r.domain (map (λ c. c.domain) (merge profiles).conflicts) ≡ false)
          (merge profiles).rules
  unfolding merge
  merge-free profiles =
      let rs = all_rules profiles in
      let ips = ips_from rs [] in
      let ds = sort_by text_leb (conflicting ips) in
      let left = (build_conflicts ds ips (entries_from rs [])).1 in
      let free = filter (λ e. not (mem_text e.domain ds)) left in
      let same = conflict_domains-same ds ips (entries_from rs []) in
      subst
        (λ xs. All (λ r. mem_text r.domain xs ≡ false) (sort_by rule_at_most (map patched free)))
        (sym same)
        (All-sort_by (λ r. mem_text r.domain ds ≡ false) rule_at_most (map patched free)
          (All-map (λ r. mem_text r.domain ds ≡ false) patched free
            (All-imp (λ e h. ground (arith, h)) free
              (filter-holds (λ e. not (mem_text e.domain ds)) left))))
