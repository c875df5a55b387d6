-- ===== src/Hosts/ManagedBlock/Shape.antt =====
-- The scans succeed exactly on one start marker followed by one end marker.
use m_host.Common.{
  Text, ℕ, suc, ◌+◌, ◌≤◌, ◌<◌, Option, none, some, List, [], ◌∷◌, ◌++◌, All, and_then,
  and_then-eq-some, split_inclusive, length, ◌≡◌, ◌≢◌, ◌↔◌, ◌⊎◌, inl, inr, refl, ap, ap₂, ◌∙◌, sym,
  arith,
}
use m_host.Hosts.ManagedBlock.{
  Mark, start, end, other, Found, note, close, nothing_yet, extract_managed_block,
}
use m_host.Hosts.ManagedBlock.Agreement.{kind, scan, extract_lines-eq}

-- No line of these is a marker.
abbrev pub Clean : List Text → Type 0
Clean ls = All (λ l. kind l ≡ other) ls

-- Lines with exactly one block, opened at line `s` and shut at line `e`.
pub record Block (ls : List Text) (s e : ℕ) : Type 0 where
  pub before : List Text
  pub opening : Text
  pub inside : List Text
  pub closing : Text
  pub after : List Text
  pub splits : ls ≡ before ++ opening ∷ (inside ++ closing ∷ after)
  pub before_clean : Clean before
  pub is_opening : kind opening ≡ start
  pub inside_clean : Clean inside
  pub is_closing : kind closing ≡ end
  pub after_clean : Clean after
  pub start_is : s ≡ length before
  pub end_is : e ≡ suc (length before + length inside)

pub scan-Clean :
    (pre ls : List Text) (i : ℕ) (f : Found)
    → Clean pre
    → scan i (pre ++ ls) f ≡ scan (i + length pre) ls f
unfolding scan note
scan-Clean [] ls i f h = ap (λ n. scan n ls f) (omega arith)
scan-Clean (l ∷ pre) ls i f h =
    rw h.0 (scan-Clean pre ls (suc i) f h.1 ∙ ap (λ n. scan n ls f) (omega arith))

pub scan-all_Clean : (ls : List Text) (i : ℕ) (f : Found) → Clean ls → scan i ls f ≡ some f
unfolding scan note
scan-all_Clean [] i f h = refl
scan-all_Clean (l ∷ ls) i f h = rw h.0 (scan-all_Clean ls (suc i) f h.1)

-- One step of the scan, at a line whose kind is known.
scan-mark :
    (m : Mark) (l : Text) (ls : List Text) (i : ℕ) (f : Found)
    → kind l ≡ m
    → scan i (l ∷ ls) f ≡ and_then (note m i i f) (λ g. scan (suc i) ls g)
unfolding scan
scan-mark m l ls i f h = rw h refl

abbrev pub both : ℕ → ℕ → Found
both s e = record { first = some s; last = some e }

pub scan-Block : {ls : List Text} {s e : ℕ} → Block ls s e → scan 0 ls nothing_yet ≡ some (both s e)
unfolding note
scan-Block {ls} {s} {e} b =
    rw (b.splits, b.start_is, b.end_is)
      (scan-Clean b.before _ 0 nothing_yet b.before_clean
        ∙ scan-mark start b.opening _ _ nothing_yet b.is_opening
        ∙ scan-Clean b.inside _ _ _ b.inside_clean
        ∙ scan-mark end b.closing _ _ _ b.is_closing
        ∙ scan-all_Clean b.after _ _ b.after_clean
        ∙ ap₂ (λ x y. some (both x y)) (omega arith) (omega arith))

-- Where the scan first meets a marker, and goes on.
record FirstMark (i : ℕ) (ls : List Text) (f g : Found) : Type 0 where
  pre : List Text
  mark : Text
  rest : List Text
  next : Found
  splits : ls ≡ pre ++ mark ∷ rest
  pre_clean : Clean pre
  is_mark : kind mark ≢ other
  line : ℕ
  line_is : line ≡ i + length pre
  noted : note (kind mark) line line f ≡ some next
  goes_on : scan (suc line) rest next ≡ some g

is_other : (m : Mark) → (m ≡ other) ⊎ (m ≢ other)
is_other start = inr (λ e. cc)
is_other end = inr (λ e. cc)
is_other other = inl refl

scan_cases :
    (i : ℕ) (ls : List Text) (f : Found) {g : Found}
    → scan i ls f ≡ some g
    → (Clean ls × (f ≡ g)) ⊎ FirstMark i ls f g
unfolding scan note
scan_cases i [] f h = inl (tt, cc)
scan_cases i (l ∷ ls) f h = elim (is_other (kind l)) [
  | inr m ↦
      let (next, noted, on) = and_then-eq-some (note (kind l) i i f) (λ g. scan (suc i) ls g) h in
      inr (record {
        pre = [];
        mark = l;
        rest = ls;
        next = next;
        splits = refl;
        pre_clean = tt;
        is_mark = m;
        line = i;
        line_is = omega arith;
        noted = noted;
        goes_on = on;
      })
  | inl o ↦ elim (scan_cases (suc i) ls f (rw o at h)) [
    | inl (clean, same) ↦ inl ((o, clean), same)
    | inr r ↦ inr (record {
      pre = l ∷ r.pre;
      mark = r.mark;
      rest = r.rest;
      next = r.next;
      splits = ap (◌∷◌ l) r.splits;
      pre_clean = (o, r.pre_clean);
      is_mark = r.is_mark;
      line = r.line;
      line_is = omega (arith, r.line_is);
      noted = r.noted;
      goes_on = r.goes_on;
    })
  ]
]

-- With both markers found, no further marker is accepted.
scan-both :
    (i s e : ℕ) (ls : List Text) {g : Found}
    → scan i ls (both s e) ≡ some g
    → Clean ls × (both s e ≡ g)
unfolding note
scan-both i s e ls h = elim (scan_cases i ls (both s e) h) [
  | inl done ↦ done
  | inr r ↦ absurd (no_more r.line (kind r.mark) r.is_mark r.noted)
]
  where
    no_more : (i : ℕ) {f : Found} (m : Mark) → m ≢ other → note m i i (both s e) ≡ some f → ⊥
    no_more i start n h = cc
    no_more i end n h = cc
    no_more i other n h = n refl

abbrev opened : ℕ → Found
opened s = record { first = some s; last = none }

-- After an opening marker the scan needs a closing one.
scan-opened :
    (i s : ℕ) (ls : List Text) {g : Found}
    → scan i ls (opened s) ≡ some g
    → (g ≡ opened s)
      ⊎ ((inside : List Text) × (closing : Text) × (after : List Text) × (ls
            ≡ inside ++ closing ∷ after)
          × Clean inside
          × (kind closing ≡ end)
          × Clean after
          × (g ≡ both s (i + length inside)))
unfolding note
scan-opened i s ls {g} h = elim (scan_cases i ls (opened s) h) [
  | inl (clean, same) ↦ inl (sym same)
  | inr r ↦ next (kind r.mark) r refl
]
  where
    next :
        (m : Mark) (r : FirstMark i ls (opened s) g)
        → kind r.mark ≡ m
        → (g ≡ opened s)
          ⊎ ((inside : List Text) × (closing : Text) × (after : List Text) × (ls
                ≡ inside ++ closing ∷ after)
              × Clean inside
              × (kind closing ≡ end)
              × Clean after
              × (g ≡ both s (i + length inside)))
    next start r e = absurd (cc (ap (λ m. note m r.line r.line (opened s)) e))
    next other r e = absurd (r.is_mark e)
    next end r e =
        let found : some (both s r.line) ≡ some r.next = rw e at r.noted in
        let there : both s r.line ≡ r.next = cc in
        let (clean, same) = scan-both (suc r.line) s r.line r.rest (rw (← there) at r.goes_on) in
        inr
          (r.pre, r.mark, r.rest, r.splits, r.pre_clean, e, clean, sym same ∙ ap (both s) r.line_is)

-- A closing marker that comes first stays before any opening one.
scan_shut :
    (i t : ℕ) (ls : List Text) {g : Found} {s e : ℕ}
    → scan i ls (record { first = none; last = some t }) ≡ some g
    → t < i
    → g.first ≡ some s
    → g.last ≡ some e
    → e < s
unfolding note
scan_shut i t ls {g} {s} {e} h lt fs fe =
    elim (scan_cases i ls (record { first = none; last = some t }) h) [
      | inl (clean, same) ↦ absurd (cc)
      | inr r ↦ next (kind r.mark) r refl
    ]
  where
    next :
        (m : Mark) (r : FirstMark i ls (record { first = none; last = some t }) g)
        → kind r.mark ≡ m
        → e < s
    next end r k = let found : none ≡ some r.next = rw k at r.noted in absurd (cc)
    next other r k = absurd (r.is_mark k)
    next start r k =
        let found : some (both r.line t) ≡ some r.next = rw k at r.noted in
        let there : both r.line t ≡ r.next = cc in
        let (clean, same) = scan-both (suc r.line) r.line t r.rest (rw (← there) at r.goes_on) in
        let s_is : some s ≡ some r.line = sym fs ∙ ap (λ (f : Found). f.first) (sym same) in
        let e_is : some e ≡ some t = sym fe ∙ ap (λ (f : Found). f.last) (sym same) in
        ground (arith, r.line_is)

-- A scan that finds an opening line and a closing line no earlier saw one block.
pub Block_of_scan :
    (ls : List Text) {g : Found} {s e : ℕ}
    → scan 0 ls nothing_yet ≡ some g
    → g.first ≡ some s
    → g.last ≡ some e
    → s ≤ e
    → Block ls s e
unfolding note
Block_of_scan ls {g} {s} {e} h fs fe le = elim (scan_cases 0 ls nothing_yet h) [
  | inl (clean, same) ↦ absurd (cc)
  | inr r ↦ next (kind r.mark) r refl
]
  where
    next : (m : Mark) (r : FirstMark 0 ls nothing_yet g) → kind r.mark ≡ m → Block ls s e
    next other r k = absurd (r.is_mark k)
    next end r k =
        let found : some (record { first = none; last = some r.line }) ≡ some r.next =
          rw k at r.noted in
        let there : record { first = none; last = some r.line } ≡ r.next = cc in
        absurd (
          omega (
            arith,
            scan_shut (suc r.line) r.line r.rest (rw (← there) at r.goes_on) (omega arith) fs fe,
          ))
    next start r k =
        let found : some (opened r.line) ≡ some r.next = rw k at r.noted in
        let there : opened r.line ≡ r.next = cc in
        elim (scan-opened (suc r.line) r.line r.rest (rw (← there) at r.goes_on)) [
          | inl same ↦ absurd (cc)
          | inr (inside, closing, after, splits, c, k', c', same) ↦ record {
            before = r.pre;
            opening = r.mark;
            inside = inside;
            closing = closing;
            after = after;
            splits = r.splits ∙ ap (λ x. r.pre ++ r.mark ∷ x) splits;
            before_clean = r.pre_clean;
            is_opening = k;
            inside_clean = c;
            is_closing = k';
            after_clean = c';
            start_is = ground (arith, r.line_is, fs, ap (λ (f : Found). f.first) same);
            end_is = ground (arith, r.line_is, fe, ap (λ (f : Found). f.last) same);
          }
        ]

pub close-eq-some :
    (o : Option Found) {s e : ℕ}
    → close o ≡ some (s, e)
    → (f : Found) × (o ≡ some f) × (f.first ≡ some s) × (f.last ≡ some e) × (s ≤ e)
unfolding close
close-eq-some none h = absurd (cc)
close-eq-some (some f) h = (f, refl, ground arith, ground arith, ground arith)

pub close-both : (s e : ℕ) → s ≤ e → close (some (both s e)) ≡ some (s, e)
unfolding close
close-both s e h = ground arith

-- `extract_managed_block` finds lines `s` and `e` exactly when they hold the only opening and the
-- only closing marker, in this order.
pub extract_managed_block-Block :
    (input : Text) (s e : ℕ)
    → (extract_managed_block input ≡ some (s, e)) ↔ Block (split_inclusive input) s e
extract_managed_block-Block input s e = (found, given)
  where
    found : extract_managed_block input ≡ some (s, e) → Block (split_inclusive input) s e
    found h =
        let (f, scanned, fs, fe, le) = close-eq-some _ (sym (extract_lines-eq input) ∙ h) in
        Block_of_scan (split_inclusive input) scanned fs fe le

    given : Block (split_inclusive input) s e → extract_managed_block input ≡ some (s, e)
    given b =
        extract_lines-eq input
        ∙ ap close (scan-Block b)
        ∙ close-both s e (omega (arith, b.start_is, b.end_is))
