-- ===== src/Common/Trimming.antt =====
-- Laws of `trim`: white space at the ends does not matter, and a text that has none stays.
use m_host.Common.Tests.{if◌then◌else◌, Bool-cases, Option-cases}
use m_host.Common.Lists.{all}
use m_host.Common.Chars.{Text, is_whitespace, trim_start_by, trim_end_by, trim}
use m_host.Common.Split.{strip_suffix, strip_line_end}
use Prim.Native.Nat.{ℕ}
use mathlib.Core.Path.{◌≡◌, refl, ap, sym, ◌∙◌}
use mathlib.Core.Logic.{◌⊎◌, inl, inr}
use mathlib.Core.Bool.{Bool, true, false, ◌&&◌}
use mathlib.Core.List.{[], ◌∷◌, ◌++◌}
use mathlib.Core.Option.{some}
use native.Mathlib.Omega.{arith}
use m_host.Common.Lists.{all-append}

module _ (p : ℕ → Bool) where
  trim_end_by-all : (l : Text) → all p l ≡ true → trim_end_by p l ≡ []
  unfolding trim_end_by
  trim_end_by-all [] h = refl
  trim_end_by-all (c ∷ l) h = ground (arith, trim_end_by-all l)

  trim_end_by-append : (l ws : Text) → all p ws ≡ true → trim_end_by p (l ++ ws) ≡ trim_end_by p l
  unfolding trim_end_by
  trim_end_by-append [] ws h = trim_end_by-all ws h
  trim_end_by-append (c ∷ l) ws h = ground (arith, all-append p l ws, trim_end_by-append l ws)

  trim_start_by-all : (l : Text) → all p l ≡ true → trim_start_by p l ≡ []
  unfolding trim_start_by
  trim_start_by-all [] h = refl
  trim_start_by-all (c ∷ l) h = ground (arith, trim_start_by-all l)

  trim_start_by-append :
      (l ws : Text)
      → all p ws ≡ true
      → trim_start_by p (l ++ ws) ≡ (if all p l then [] else trim_start_by p l ++ ws)
  unfolding trim_start_by
  trim_start_by-append [] ws h = trim_start_by-all ws h
  trim_start_by-append (c ∷ l) ws h = ground (arith, trim_start_by-append l ws)

  trim_by-append :
      (l ws : Text)
      → all p ws ≡ true
      → trim_end_by p (trim_start_by p (l ++ ws)) ≡ trim_end_by p (trim_start_by p l)
  trim_by-append l ws h = ground (
    arith,
    trim_start_by-append l ws,
    trim_end_by-append (trim_start_by p l) ws,
    trim_start_by-all l,
  )

  -- What `trim_end_matches` takes off.
  cut_end : (l : Text) → (ws : Text) × (l ≡ trim_end_by p l ++ ws) × (all p ws ≡ true)
  unfolding trim_end_by
  cut_end [] = ([], refl, refl)
  cut_end (c ∷ l) = elim (Bool-cases (p c && all p l)) [
    | inl spaces ↦ (c ∷ l, rw spaces refl, spaces)
    | inr kept ↦ let (ws, splits, spaces) = cut_end l in (ws, rw kept (ap (◌∷◌ c) splits), spaces)
  ]

-- White space behind a text does not change what `trim` makes of it.
pub trim-append_space : (l ws : Text) → all is_whitespace ws ≡ true → trim (l ++ ws) ≡ trim l
unfolding trim
trim-append_space l ws h = trim_by-append is_whitespace l ws h

pub trim-cons :
    (c : ℕ) (l : Text) → is_whitespace c ≡ false → trim (c ∷ l) ≡ c ∷ trim_end_by is_whitespace l
unfolding trim
trim-cons c l h = ground arith

-- Nor does taking off characters that are white space.
pub trim-trim_end_by :
    (p : ℕ → Bool) (l : Text)
    → ((ws : Text) → all p ws ≡ true → all is_whitespace ws ≡ true)
    → trim (trim_end_by p l) ≡ trim l
trim-trim_end_by p l spaces =
    let (ws, splits, h) = cut_end p l in
    sym (trim-append_space (trim_end_by p l) ws (spaces ws h)) ∙ ap trim (sym splits)

pub append_of_strip_suffix :
    (c : ℕ) (l : Text) {m : Text} → strip_suffix c l ≡ some m → l ≡ m ++ c ∷ []
unfolding strip_suffix
append_of_strip_suffix c [] h = cc
append_of_strip_suffix c (x ∷ []) h = ground arith
append_of_strip_suffix c (x ∷ y ∷ l) h = elim (Option-cases (strip_suffix c (y ∷ l))) [
  | inl e ↦ absurd (ground arith)
  | inr (m', e) ↦ ground (arith, append_of_strip_suffix c (y ∷ l) e)
]

trim_strip :
    (c : ℕ) (l : Text) {m : Text}
    → is_whitespace c ≡ true
    → strip_suffix c l ≡ some m
    → trim m ≡ trim l
trim_strip c l {m} space h =
    sym (trim-append_space m (c ∷ []) (ground arith)) ∙ ap trim (sym (append_of_strip_suffix c l h))

-- What `strip_line_end` does, on each of its ways out.
strip_line_end_cases :
    (l : Text)
    → (strip_line_end l ≡ l)
      ⊎ ((m : Text) × (strip_suffix b'\n' l ≡ some m)
          × ((strip_line_end l ≡ m)
              ⊎ ((n : Text) × (strip_suffix b'\r' m ≡ some n) × (strip_line_end l ≡ n))))
unfolding strip_line_end
strip_line_end_cases l = elim (Option-cases (strip_suffix b'\n' l)) [
  | inl e ↦ inl (ground arith)
  | inr (m, e) ↦ inr (
    m,
    e,
    elim (Option-cases (strip_suffix b'\r' m)) [
      | inl e' ↦ inl (ground arith)
      | inr (n, e') ↦ inr (n, e', ground arith)
    ],
  )
]

pub trim-strip_line_end : (l : Text) → trim (strip_line_end l) ≡ trim l
trim-strip_line_end l = elim (strip_line_end_cases l) [
  | inl e ↦ rw e refl
  | inr (m, e, inl f) ↦ rw f (trim_strip b'\n' l (unfold is_whitespace in refl) e)
  | inr (m, e, inr (n, e', f)) ↦ rw f (
      trim_strip b'\r' m (unfold is_whitespace in refl) e'
      ∙ trim_strip b'\n' l (unfold is_whitespace in refl) e)
]
