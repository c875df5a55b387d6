-- ===== src/Sources/Overlap/Totals.antt =====
-- The counts of the report and the totals of the details.
use m_host.Common.{
  Text, ℕ, zero, suc, ◌+◌, ◌<◌, Bool, true, false, not, ◌&&◌, Option, none, some, List, [], ◌∷◌,
  ◌++◌, filter, length, if◌then◌else◌, ◌==◌, ltb, leb, eqb, ◌≡◌, refl, sym, ap, subst, ◌∙◌, arith,
  Bool-cases, inl, inr, All,
}
use m_host.Common.Sort.{sort_by, insert_by}
use m_host.Core.AdBlock.{AdBlockSource, AdBlockState}
use m_host.Core.Ip.{IpAddr}
use m_host.Core.Models.{Uuid}
use m_host.Sources.Overlap.{
  OverlapSummary, mem, push_new, cover, cover_domains, by_domain, bump, bump_all, tally, count_at,
  zeros, summaries, enabled_position, overlaps, by_name, matching, details_at,
  load_enabled_source_domains, compute_overlap_report, compute_overlap_details,
}
use m_host.Sources.Reload.{Hasher, AdBlockReloadGate}
use m_host.Sources.Store.{Root, IdText}
use m_host.Sources.Whitelist.{Lowercase}

abbrev nodup : List ℕ → Bool
nodup [] = true
nodup (i ∷ is) = not (mem i is) && nodup is

abbrev Tidy : List (Text × List ℕ) → Type 0
Tidy table = All (λ e. nodup e.1 ≡ true) table

abbrev one_if : Bool → ℕ
one_if true = 1
one_if false = 0

mem-snoc :
    (i idx : ℕ) (is : List ℕ)
    → mem i is ≡ false
    → (idx == i) ≡ false
    → mem i (is ++ idx ∷ []) ≡ false
mem-snoc i idx [] h k = ground (arith, k)
mem-snoc i idx (j ∷ is) h k =
    let rest : mem i (is ++ idx ∷ []) ≡ false = mem-snoc i idx is (ground (arith, h)) k in
    ground (arith, h, rest)

nodup-snoc :
    (idx : ℕ) (is : List ℕ) → nodup is ≡ true → mem idx is ≡ false → nodup (is ++ idx ∷ []) ≡ true
nodup-snoc idx [] h k = refl
nodup-snoc idx (j ∷ is) h k =
    let rest : nodup (is ++ idx ∷ []) ≡ true =
      nodup-snoc idx is (ground (arith, h)) (ground (arith, k)) in
    let absent : mem j (is ++ idx ∷ []) ≡ false =
      mem-snoc j idx is (ground (arith, h)) (ground (arith, k)) in
    ground (arith, rest, absent)

push_new-nodup : (idx : ℕ) (is : List ℕ) → nodup is ≡ true → nodup (push_new idx is) ≡ true
push_new-nodup idx is h = elim (Bool-cases (mem idx is)) [
  | inl there ↦ rw there h
  | inr absent ↦ rw absent (nodup-snoc idx is h absent)
]

cover-Tidy : (idx : ℕ) (d : Text) (t : List (Text × List ℕ)) → Tidy t → Tidy (cover idx d t)
unfolding cover
cover-Tidy idx d [] h = (refl, tt)
cover-Tidy idx d ((k, bucket) ∷ t) (now, later) = elim (Bool-cases (eqb k d)) [
  | inl same ↦ rw same (push_new-nodup idx bucket now, later)
  | inr other ↦ rw other (now, cover-Tidy idx d t later)
]

cover_domains-Tidy :
    (idx : ℕ) (ds : List Text) (t : List (Text × List ℕ)) → Tidy t → Tidy (cover_domains idx ds t)
unfolding cover_domains
cover_domains-Tidy idx [] t h = h
cover_domains-Tidy idx (d ∷ ds) t h =
    cover_domains-Tidy idx ds (cover idx d t) (cover-Tidy idx d t h)

by_domain-Tidy :
    (ls : List (ℕ × List Text)) (t : List (Text × List ℕ)) → Tidy t → Tidy (by_domain ls t)
unfolding by_domain
by_domain-Tidy [] t h = h
by_domain-Tidy ((idx, ds) ∷ ls) t h =
    by_domain-Tidy ls (cover_domains idx ds t) (cover_domains-Tidy idx ds t h)

length-bump : (idx : ℕ) (ns : List ℕ) → length (bump idx ns) ≡ length ns
unfolding bump
length-bump idx [] = refl
length-bump zero (n ∷ ns) = refl
length-bump (suc idx) (n ∷ ns) = ap suc (length-bump idx ns)

length-bump_all : (covering ns : List ℕ) → length (bump_all covering ns) ≡ length ns
unfolding bump_all
length-bump_all [] ns = refl
length-bump_all (idx ∷ covering) ns = length-bump_all covering (bump idx ns) ∙ length-bump idx ns

count_at-bump :
    (i idx : ℕ) (ns : List ℕ)
    → i < length ns
    → count_at i (bump idx ns) ≡ count_at i ns + one_if (idx == i)
unfolding count_at bump
count_at-bump i idx [] h = absurd (ground arith)
count_at-bump zero zero (n ∷ ns) h = refl
count_at-bump zero (suc idx) (n ∷ ns) h = ground arith
count_at-bump (suc i) zero (n ∷ ns) h = ground arith
count_at-bump (suc i) (suc idx) (n ∷ ns) h =
    let rest : count_at i (bump idx ns) ≡ count_at i ns + one_if (idx == i) =
      count_at-bump i idx ns (ground arith) in
    ground (arith, rest)

count_at-bump_all :
    (i : ℕ) (covering ns : List ℕ)
    → i < length ns
    → nodup covering ≡ true
    → count_at i (bump_all covering ns) ≡ count_at i ns + one_if (mem i covering)
unfolding bump_all
count_at-bump_all i [] ns h d = ground arith
count_at-bump_all i (idx ∷ covering) ns h d =
    let small : i < length (bump idx ns) = subst (λ n. i < n) (sym (length-bump idx ns)) h in
    let unique : nodup covering ≡ true = ground (arith, d) in
    let later : count_at i (bump_all covering (bump idx ns))
        ≡ count_at i (bump idx ns) + one_if (mem i covering) =
      count_at-bump_all i covering (bump idx ns) small unique in
    let here : count_at i (bump idx ns) ≡ count_at i ns + one_if (idx == i) =
      count_at-bump i idx ns h in
    elim (Bool-cases (idx == i)) [
      | inl same ↦
          let equal : idx ≡ i = ground (arith, same) in
          let absent : mem i covering ≡ false =
            subst (λ k. mem k covering ≡ false) equal (ground (arith, d)) in
          ground (arith, same, absent, later, here)
      | inr other ↦ ground (arith, other, later, here)
    ]

-- The counts after a tally are those before it and the number of overlapping domains.
count_at-tally :
    (i : ℕ) (t : List (Text × List ℕ)) (ns : List ℕ)
    → i < length ns
    → Tidy t
    → count_at i (tally t ns) ≡ count_at i ns + length (filter (overlaps i) t)
unfolding tally
count_at-tally i [] ns h d = ground arith
count_at-tally i ((k, covering) ∷ t) ns h (d, ds) = elim (Bool-cases (ltb (length covering) 2)) [
  | inl single ↦
      let later : count_at i (tally t ns) ≡ count_at i ns + length (filter (overlaps i) t) =
        count_at-tally i t ns h ds in
      let few : leb 2 (length covering) ≡ false = ground (arith, single) in rw (single, few) later
  | inr several ↦
      let many : leb 2 (length covering) ≡ true = ground (arith, several) in
      let bumped = bump_all covering ns in
      let small : i < length bumped = subst (λ n. i < n) (sym (length-bump_all covering ns)) h in
      let later : count_at i (tally t bumped) ≡ count_at i bumped + length (filter (overlaps i) t) =
        count_at-tally i t bumped small ds in
      let here : count_at i bumped ≡ count_at i ns + one_if (mem i covering) =
        count_at-bump_all i covering ns h d in
      elim (Bool-cases (mem i covering)) [
        | inl there ↦ rw (several, many, there) (ground (arith, there, later, here))
        | inr absent ↦ rw (several, many, absent) (ground (arith, absent, later, here))
      ]
]

length-insert_by :
    {T : Type 0} (le : T → T → Bool) (x : T) (xs : List T)
    → length (insert_by le x xs) ≡ suc (length xs)
unfolding insert_by
length-insert_by le x [] = refl
length-insert_by le x (y ∷ ys) = elim (Bool-cases (le x y)) [
  | inl e ↦ rw e refl
  | inr e ↦ rw e (ap suc (length-insert_by le x ys))
]

length-sort_by : {T : Type 0} (le : T → T → Bool) (xs : List T) → length (sort_by le xs) ≡ length xs
unfolding sort_by
length-sort_by le [] = refl
length-sort_by le (x ∷ xs) = length-insert_by le x (sort_by le xs) ∙ ap suc (length-sort_by le xs)

count_at-zeros : (i : ℕ) (ss : List AdBlockSource) → count_at i (zeros ss) ≡ 0
unfolding count_at zeros
count_at-zeros i [] = refl
count_at-zeros zero (s ∷ ss) = refl
count_at-zeros (suc i) (s ∷ ss) = count_at-zeros i ss

length-zeros : (ss : List AdBlockSource) → length (zeros ss) ≡ length ss
unfolding zeros
length-zeros [] = refl
length-zeros (s ∷ ss) = ap suc (length-zeros ss)

enabled_position-bound :
    (id idx : ℕ) (ss : List AdBlockSource) (i : ℕ)
    → enabled_position id idx ss ≡ some i
    → i < idx + length ss
unfolding enabled_position
enabled_position-bound id idx [] i h = absurd (cc)
enabled_position-bound id idx (s ∷ ss) i h = elim (Bool-cases (s.enabled && s.source_id == id)) [
  | inl found ↦ ground (arith, found, h)
  | inr other ↦
      let later : i < (idx + 1) + length ss =
        enabled_position-bound id (idx + 1) ss i (ground (arith, other, h)) in
      ground (arith, later)
]

-- The count that a report gives for an id, and 0 where it has no entry with it.
abbrev pub reported : Uuid → List OverlapSummary → ℕ
reported id [] = 0
reported id (x ∷ xs) =
    let rest = reported id xs in if x.source_id == id then x.overlapping_domain_count else rest

abbrev at_position : List ℕ → Option ℕ → ℕ
at_position counts none = 0
at_position counts (some i) = count_at i counts

reported-summaries :
    (id : Uuid) (counts : List ℕ) (idx : ℕ) (ss : List AdBlockSource)
    → reported id (summaries counts idx ss) ≡ at_position counts (enabled_position id idx ss)
unfolding summaries enabled_position
reported-summaries id counts idx [] = refl
reported-summaries id counts idx (s ∷ ss) =
    let rest = reported-summaries id counts (idx + 1) ss in
    elim (Bool-cases s.enabled) [
      | inr off ↦ rw off rest
      | inl on ↦ elim (Bool-cases (s.source_id == id)) [
        | inl same ↦ rw (on, same) refl
        | inr other ↦ rw (on, other) rest
      ]
    ]

total_lem :
    (state : AdBlockState) (id : Uuid) (position : Option ℕ) (ls : List (ℕ × List Text))
    → enabled_position id 0 state.sources ≡ position
    → (details_at state id position (by_domain ls [])).total
      ≡ at_position (tally (by_domain ls []) (zeros state.sources)) position
unfolding details_at matching
total_lem state id none ls h = refl
total_lem state id (some i) ls h =
    let table = by_domain ls [] in
    let inside : i < length state.sources =
      ground (arith, enabled_position-bound id 0 state.sources i h) in
    let counted =
      count_at-tally i table (zeros state.sources)
        (subst (λ n. i < n) (sym (length-zeros state.sources)) inside) (by_domain-Tidy ls [] tt) in
    length-sort_by by_name (filter (overlaps i) table)
    ∙ sym (
        counted
        ∙ ap (λ n. n + length (filter (overlaps i) table)) (count_at-zeros i state.sources)
        ∙ ground arith)

module _ (A : Type 0) ⦃ip : IpAddr A⦄ ⦃lower : Lowercase⦄ ⦃ids : IdText⦄ ⦃hasher : Hasher⦄ where
  -- The total that the details of any id give is the count that the report gives for it, or 0
  -- where the report has no entry with the id.
  pub compute_overlap_details-total :
      (uuids : ℕ → Uuid) (state : AdBlockState) (root : Root) (gate : AdBlockReloadGate) (id : Uuid)
      → (compute_overlap_details A uuids state root gate id).0.total
        ≡ reported id (compute_overlap_report A uuids state root gate).0
  unfolding compute_overlap_details compute_overlap_report
  compute_overlap_details-total uuids state root gate id =
      let loaded = (load_enabled_source_domains A uuids state root gate).0 in
      let counts = tally (by_domain loaded []) (zeros state.sources) in
      total_lem state id (enabled_position id 0 state.sources) loaded refl
      ∙ sym (reported-summaries id counts 0 state.sources)
