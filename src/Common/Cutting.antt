-- ===== src/Common/Cutting.antt =====
-- Laws of the cuts: pieces, lines and byte offsets put back together.
use m_host.Common.Tests.{leb}
use m_host.Common.Chars.{Text, contains_char}
use m_host.Common.Split.{
  cons_first, split_inclusive, strip_suffix, strip_line_end, lines, char_len, len, slice_to,
  slice_from, char_len_pos, concat,
}
use Prim.Native.Nat.{ℕ, zero, suc, ◌+◌, ◌-◌}
use mathlib.Core.Path.{◌≡◌, refl, ap, ap₂, ◌∙◌}
use mathlib.Core.Bool.{true, false}
use mathlib.Core.List.{List, [], ◌∷◌, ◌++◌, append_assoc}
use mathlib.Core.Option
use mathlib.Core.Option.{Option, none, some}
use native.Mathlib.Omega.{arith}

concat-cons_first : (c : ℕ) (ls : List Text) → concat (cons_first c ls) ≡ c ∷ concat ls
concat-cons_first c [] = refl
concat-cons_first c (l ∷ ls) = refl

-- The pieces make up the text again.
pub concat-split_inclusive : (s : Text) → concat (split_inclusive s) ≡ s
unfolding split_inclusive
concat-split_inclusive [] = refl
concat-split_inclusive (c ∷ s) =
    ground (arith, concat-split_inclusive s, concat-cons_first c (split_inclusive s))

pub concat-append : (xs ys : List Text) → concat (xs ++ ys) ≡ concat xs ++ concat ys
concat-append [] ys = refl
concat-append (x ∷ xs) ys = rw (concat-append xs ys, append_assoc)

abbrev pub NoNewline : Text → Type 0
NoNewline l = contains_char b'\n' l ≡ false

-- A text up to its first line break is a piece.
pub split_inclusive-line :
    (l rest : Text)
    → NoNewline l
    → split_inclusive (l ++ b'\n' ∷ rest) ≡ (l ++ b'\n' ∷ []) ∷ split_inclusive rest
unfolding split_inclusive
split_inclusive-line [] rest h = refl
split_inclusive-line (c ∷ l) rest h = ground (arith, split_inclusive-line l rest)

pub strip_suffix-append : (c : ℕ) (l : Text) → strip_suffix c (l ++ c ∷ []) ≡ some l
unfolding strip_suffix
strip_suffix-append c [] = ground arith
strip_suffix-append c (x ∷ []) = ground arith
strip_suffix-append c (x ∷ y ∷ l) = rw (strip_suffix-append c (y ∷ l))

pub len-append : (a b : Text) → len (a ++ b) ≡ len a + len b
unfolding len
len-append [] b = omega arith
len-append (c ∷ a) b = omega (arith, len-append a b)

slice_to-cons :
    (m c n : ℕ) (s : Text)
    → m ≡ char_len c + n
    → slice_to m (c ∷ s) ≡ Option.map (λ t. c ∷ t) (slice_to n s)
unfolding slice_to
slice_to-cons zero c n s h = absurd (omega (arith, char_len_pos c))
slice_to-cons (suc m) c n s h =
    let rest_bytes : suc m - char_len c ≡ n = omega arith in
    let fits : leb (char_len c) (suc m) ≡ true = ground arith in rw (rest_bytes, fits)

slice_from-cons :
    (m c n : ℕ) (s : Text) → m ≡ char_len c + n → slice_from m (c ∷ s) ≡ slice_from n s
unfolding slice_from
slice_from-cons zero c n s h = absurd (omega (arith, char_len_pos c))
slice_from-cons (suc m) c n s h =
    let rest_bytes : suc m - char_len c ≡ n = omega arith in
    let fits : leb (char_len c) (suc m) ≡ true = ground arith in rw (rest_bytes, fits)

-- A slice at the end of a text that stands in front is that text; no panic.
pub slice_to-append : (a b : Text) → slice_to (len a) (a ++ b) ≡ some a
unfolding len
slice_to-append [] b = unfold slice_to in refl
slice_to-append (c ∷ a) b =
    slice_to-cons (len (c ∷ a)) c (len a) (a ++ b) refl
    ∙ ap (Option.map (λ t. c ∷ t)) (slice_to-append a b)

pub slice_from-append : (a b : Text) → slice_from (len a) (a ++ b) ≡ some b
unfolding len
slice_from-append [] b = unfold slice_from in refl
slice_from-append (c ∷ a) b =
    slice_from-cons (len (c ∷ a)) c (len a) (a ++ b) refl ∙ slice_from-append a b

-- The last character of a line is no carriage return.
abbrev pub NoReturn : Text → Type 0
NoReturn l = strip_suffix b'\r' l ≡ none

pub strip_line_end-line : (l : Text) → NoReturn l → strip_line_end (l ++ b'\n' ∷ []) ≡ l
unfolding strip_line_end
strip_line_end-line l h = ground (arith, strip_suffix-append b'\n' l)

-- A line with its break in front of a text is the first of its lines.
pub lines-line :
    (l rest : Text) → NoNewline l → NoReturn l → lines (l ++ b'\n' ∷ rest) ≡ l ∷ lines rest
lines-line l rest h k =
    unfold lines in rw (split_inclusive-line l rest h) (ap₂ ◌∷◌ (strip_line_end-line l k) refl)
