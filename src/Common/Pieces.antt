-- ===== src/Common/Pieces.antt =====
-- What the pieces of `split_inclusive('\n')` look like, and which pieces a text is made of.
use m_host.Common.Tests.{Bool-cases, ==_iff, if◌then◌else◌, ◌==◌}
use m_host.Common.Lists.{All, is_empty}
use m_host.Common.Chars.{Text, ends_with_char, codes}
use m_host.Common.Split.{cons_first, split_inclusive, concat}
use m_host.Common.Cutting.{NoNewline, split_inclusive-line}
use Prim.Native.Nat.{ℕ}
use mathlib.Core.Path.{◌≡◌, refl, ap, sym, ◌∙◌}
use mathlib.Core.Logic.{◌≢◌, ◌⊎◌, inl, inr}
use mathlib.Core.Bool.{true, false, not, ◌&&◌}
use mathlib.Core.List.{List, [], ◌∷◌, ◌++◌, append_assoc, append-nil}
use native.Mathlib.Omega.{arith}

-- A line with its line break.
pub record Complete (p : Text) : Type 0 where
  pub line : Text
  pub breaks : p ≡ line ++ b'\n' ∷ []
  pub one_line : NoNewline line

-- A last line with no line break.
pub record Unfinished (p : Text) : Type 0 where
  pub some_text : p ≢ []
  pub one_line : NoNewline p

abbrev pub IsPieces : List Text → Type 0
IsPieces [] = Unit
IsPieces (p ∷ []) = Complete p ⊎ Unfinished p
IsPieces (p ∷ q ∷ ps) = Complete p × IsPieces (q ∷ ps)

Complete-cons : (c : ℕ) {p : Text} → (c == b'\n') ≡ false → Complete p → Complete (c ∷ p)
Complete-cons c h k = record {
  line = c ∷ k.line;
  breaks = ap (◌∷◌ c) k.breaks;
  one_line = ground (arith, k.one_line);
}

IsPieces-newline : (ps : List Text) → IsPieces ps → IsPieces ((b'\n' ∷ []) ∷ ps)
IsPieces-newline [] h = inl (record { line = []; breaks = refl; one_line = refl })
IsPieces-newline (p ∷ ps) h = (record { line = []; breaks = refl; one_line = refl }, h)

IsPieces-cons_first :
    (c : ℕ) (ps : List Text) → (c == b'\n') ≡ false → IsPieces ps → IsPieces (cons_first c ps)
IsPieces-cons_first c [] h k = inr (record { some_text = λ e. cc; one_line = ground arith })
IsPieces-cons_first c (p ∷ []) h (inl k) = inl (Complete-cons c h k)
IsPieces-cons_first c (p ∷ []) h (inr k) =
    inr (record { some_text = λ e. cc; one_line = ground (arith, k.one_line) })
IsPieces-cons_first c (p ∷ q ∷ ps) h k = (Complete-cons c h k.0, k.1)

pub split_inclusive-IsPieces : (s : Text) → IsPieces (split_inclusive s)
unfolding split_inclusive
split_inclusive-IsPieces [] = tt
split_inclusive-IsPieces (c ∷ s) = elim (Bool-cases (c == b'\n')) [
  | inl e ↦
      let newline : c ≡ b'\n' = (==_iff c b'\n').0 e in
      rw newline (IsPieces-newline (split_inclusive s) (split_inclusive-IsPieces s))
  | inr e ↦ rw e (IsPieces-cons_first c (split_inclusive s) e (split_inclusive-IsPieces s))
]

-- All but the last of the pieces are complete.
pub Complete-front :
    (qs : List Text) (m : Text) (rest : List Text) → IsPieces (qs ++ m ∷ rest) → All Complete qs
Complete-front [] m rest h = tt
Complete-front (q ∷ []) m rest h = (h.0, tt)
Complete-front (q ∷ q' ∷ qs) m rest h = (h.0, Complete-front (q' ∷ qs) m rest h.1)

-- Complete pieces in front of a text are its first pieces.
pub split_inclusive-Complete :
    (qs : List Text) (w : Text)
    → All Complete qs
    → split_inclusive (concat qs ++ w) ≡ qs ++ split_inclusive w
split_inclusive-Complete [] w h = refl
split_inclusive-Complete (q ∷ qs) w h =
    let k = h.0 in
    rw (k.breaks, append_assoc, append_assoc)
      (split_inclusive-line k.line (concat qs ++ w) k.one_line
        ∙ ap (◌∷◌ (k.line ++ b'\n' ∷ [])) (split_inclusive-Complete qs w h.1))

pub split_inclusive-Unfinished :
    (c : ℕ) (p : Text) → NoNewline (c ∷ p) → split_inclusive (c ∷ p) ≡ (c ∷ p) ∷ []
unfolding split_inclusive
split_inclusive-Unfinished c [] h = ground arith
split_inclusive-Unfinished c (d ∷ p) h = ground (arith, split_inclusive-Unfinished d p)

pieces_of_one : (p : Text) → Unfinished p → split_inclusive p ≡ p ∷ []
pieces_of_one [] h = absurd (h.some_text refl)
pieces_of_one (c ∷ p) h = split_inclusive-Unfinished c p h.one_line

-- Pieces are the pieces of the text that they make up.
pub split_inclusive-concat : (ps : List Text) → IsPieces ps → split_inclusive (concat ps) ≡ ps
split_inclusive-concat [] h = unfold split_inclusive in refl
split_inclusive-concat (p ∷ []) (inl k) =
    sym (ap split_inclusive (append-nil (concat (p ∷ []))))
    ∙ split_inclusive-Complete (p ∷ []) [] (k, tt)
    ∙ unfold split_inclusive in refl
split_inclusive-concat (p ∷ []) (inr k) = rw append-nil (pieces_of_one p k)
split_inclusive-concat (p ∷ q ∷ ps) h =
    ap (λ x. split_inclusive (x ++ concat (q ∷ ps))) (sym (append-nil p))
    ∙ split_inclusive-Complete (p ∷ []) (concat (q ∷ ps)) (h.0, tt)
    ∙ ap (◌∷◌ p) (split_inclusive-concat (q ∷ ps) h.1)

pub IsPieces-back : (qs ps : List Text) → IsPieces (qs ++ ps) → IsPieces ps
IsPieces-back [] ps h = h
IsPieces-back (q ∷ []) [] h = tt
IsPieces-back (q ∷ []) (p ∷ ps) h = h.1
IsPieces-back (q ∷ q' ∷ qs) ps h = IsPieces-back (q' ∷ qs) ps h.1

ends_with_char-append :
    (c : ℕ) (a b : Text) → b ≢ [] → ends_with_char c (a ++ b) ≡ ends_with_char c b
ends_with_char-append c [] b h = refl
ends_with_char-append c (x ∷ []) [] h = absurd (h refl)
ends_with_char-append c (x ∷ []) (y ∷ b) h = refl
ends_with_char-append c (x ∷ y ∷ a) b h = ends_with_char-append c (y ∷ a) b h

-- A line break is added to a text that has none at its end, unless it is empty.
abbrev pub closed : Text → Text
closed t = if not (ends_with_char b'\n' t) && not (is_empty t) then t ++ codes "\n" else t

is_empty_of_ne : (t : Text) → t ≢ [] → is_empty t ≡ false
is_empty_of_ne [] h = absurd (h refl)
is_empty_of_ne (c ∷ t) h = refl

pub append-ne-nil : (a b : Text) → b ≢ [] → a ++ b ≢ []
append-ne-nil [] b h = h
append-ne-nil (x ∷ a) b h = λ e. cc

closed_ended : (t : Text) → ends_with_char b'\n' t ≡ true → closed t ≡ t
closed_ended t h = rw h refl

closed_unended : (t : Text) → ends_with_char b'\n' t ≡ false → t ≢ [] → closed t ≡ t ++ codes "\n"
closed_unended t h k = rw (h, is_empty_of_ne t k) refl

closed-append : (a b : Text) → b ≢ [] → closed (a ++ b) ≡ a ++ closed b
closed-append a b h =
    rw
      (
        ends_with_char-append b'\n' a b h,
        is_empty_of_ne (a ++ b) (append-ne-nil a b h),
        is_empty_of_ne b h,
      )
      (elim (Bool-cases (ends_with_char b'\n' b)) [
        | inl e ↦ rw e refl
        | inr e ↦ rw e (append_assoc a b (codes "\n"))
      ])

Complete-ended : (p : Text) → Complete p → ends_with_char b'\n' p ≡ true
Complete-ended p c = rw c.breaks (ends_with_char-append b'\n' c.line (b'\n' ∷ []) (λ e. cc))

NoNewline-unended : (p : Text) → NoNewline p → ends_with_char b'\n' p ≡ false
NoNewline-unended [] h = refl
NoNewline-unended (x ∷ []) h = ground arith
NoNewline-unended (x ∷ y ∷ p) h = NoNewline-unended (y ∷ p) (ground arith)

concat-ne-nil : (p : Text) (ps : List Text) → IsPieces (p ∷ ps) → concat (p ∷ ps) ≢ []
concat-ne-nil [] [] (inl c) e = append-ne-nil c.line (b'\n' ∷ []) (λ d. cc) (sym c.breaks)
concat-ne-nil [] [] (inr u) e = u.some_text refl
concat-ne-nil [] (q ∷ ps) h e = append-ne-nil h.0.line (b'\n' ∷ []) (λ d. cc) (sym h.0.breaks)
concat-ne-nil (c ∷ p) ps h e = cc

module _ {P : Text → Type 0} (keep : (p : Text) → P p → P (p ++ codes "\n")) where
  -- The closed text is made of complete pieces.
  pub closed_pieces :
      (ps : List Text)
      → IsPieces ps
      → All P ps
      → (qs : List Text) × All Complete qs × All P qs × (concat qs ≡ closed (concat ps))
  closed_pieces [] h k = ([], tt, tt, refl)
  closed_pieces (p ∷ []) (inl c) k =
      (p ∷ [], (c, tt), k, rw append-nil (sym (closed_ended p (Complete-ended p c))))
  closed_pieces (p ∷ []) (inr u) k = (
    (p ++ codes "\n") ∷ [],
    (record { line = p; breaks = refl; one_line = u.one_line }, tt),
    (keep p k.0, tt),
    append-nil (p ++ codes "\n")
        ∙ sym (closed_unended p (NoNewline-unended p u.one_line) u.some_text)
        ∙ ap closed (sym (append-nil p)),
  )
  closed_pieces (p ∷ q ∷ ps) h k =
      let (qs, c, k', e) = closed_pieces (q ∷ ps) h.1 k.1 in
      (
        p ∷ qs,
        (h.0, c),
        (k.0, k'),
        ap (λ x. p ++ x) e ∙ sym (closed-append p (concat (q ∷ ps)) (concat-ne-nil q ps h.1)),
      )
