-- ===== src/Apply/Content/Lines.antt =====
-- The lines that the program writes for a rule: one line each, never a marker, and read back whole.
use m_host.Common.{
  Text, ℕ, Bool, true, false, ◌||◌, List, [], ◌∷◌, ◌++◌, ◌==◌, All, any, all, eqb, is_whitespace,
  contains_char, lines, split_inclusive, join_lines, strip_suffix, none, ◌≡◌, ◌≢◌, refl, ap, sym,
  ◌∙◌, arith, append_assoc, Bool-cases, inl, inr, ==_iff, false≢true, strip_line_end,
}
use m_host.Common.Cutting.{NoNewline, NoReturn, lines-line}
use m_host.Common.Pieces.{append-ne-nil, split_inclusive-Unfinished}
use m_host.Common.Trimming.{trim-cons}
use m_host.Core.Ip.{IpAddr, is_ip_char}
use m_host.Hosts.ManagedBlock.{other, mark_of}
use m_host.Hosts.ManagedBlock.Agreement.{kind}
use m_host.Apply.Diff.{mapping_line}

-- A domain that takes no part in the syntax of the file.
pub record IsWritable (d : Text) : Type 0 where
  pub not_empty : d ≢ []
  pub no_space : any is_whitespace d ≡ false

any-append : (p : ℕ → Bool) (a b : Text) → any p (a ++ b) ≡ (any p a || any p b)
any-append p [] b = refl
any-append p (x ∷ a) b = ground (arith, any-append p a b)

not_contains :
    (c : ℕ) (p : ℕ → Bool) → p c ≡ false → (l : Text) → all p l ≡ true → contains_char c l ≡ false
not_contains c p h [] k = refl
not_contains c p h (x ∷ l) k = elim (Bool-cases (x == c)) [
  | inl e ↦
      let same : x ≡ c = (==_iff x c).0 e in
      let holds : p x ≡ true = ground arith in absurd (false≢true (sym h ∙ ap p (sym same) ∙ holds))
  | inr e ↦ rw e (not_contains c p h l (ground arith))
]

not_contains_space :
    (c : ℕ)
    → is_whitespace c ≡ true
    → (l : Text) → any is_whitespace l ≡ false
    → contains_char c l ≡ false
not_contains_space c h [] k = refl
not_contains_space c h (x ∷ l) k = elim (Bool-cases (x == c)) [
  | inl e ↦
      let same : x ≡ c = (==_iff x c).0 e in
      let fails : is_whitespace x ≡ false = ground arith in
      absurd (false≢true (sym fails ∙ ap is_whitespace same ∙ h))
  | inr e ↦ rw e (not_contains_space c h l (ground arith))
]

pub strip_suffix-none : (c : ℕ) (l : Text) → contains_char c l ≡ false → strip_suffix c l ≡ none
unfolding strip_suffix
strip_suffix-none c [] h = refl
strip_suffix-none c (x ∷ []) h = ground arith
strip_suffix-none c (x ∷ y ∷ l) h = rw (strip_suffix-none c (y ∷ l) (ground arith)) refl

-- A line that `lines` gives back as it is.
pub record IsLine (l : Text) : Type 0 where
  pub not_empty : l ≢ []
  pub one_line : NoNewline l
  pub returns : NoReturn l

strip_line_end-same : (l : Text) → strip_suffix b'\n' l ≡ none → strip_line_end l ≡ l
unfolding strip_line_end
strip_line_end-same l h = ground arith

lines-last : (c : ℕ) (l : Text) → IsLine (c ∷ l) → lines (c ∷ l) ≡ (c ∷ l) ∷ []
unfolding lines
lines-last c l h =
    rw (split_inclusive-Unfinished c l h.one_line)
      (ap (λ x. x ∷ []) (strip_line_end-same (c ∷ l) (strip_suffix-none b'\n' (c ∷ l) h.one_line)))

pub lines-join_lines : (ls : List Text) → All IsLine ls → lines (join_lines ls) ≡ ls
unfolding join_lines
lines-join_lines [] h = unfold lines split_inclusive in refl
lines-join_lines ([] ∷ []) h = absurd (h.0.not_empty refl)
lines-join_lines ((c ∷ l) ∷ []) h = lines-last c l h.0
lines-join_lines (l ∷ m ∷ ls) h =
    lines-line l (join_lines (m ∷ ls)) h.0.one_line h.0.returns
    ∙ ap (◌∷◌ l) (lines-join_lines (m ∷ ls) h.1)

-- A line that starts with a character other than `#` and white space is no marker.
kind-other :
    (c : ℕ) (l : Text) → is_whitespace c ≡ false → (c == b'#') ≡ false → kind (c ∷ l) ≡ other
unfolding mark_of eqb
kind-other c l h k = rw (trim-cons c l h) (ground arith)

ip_char_start : (c : ℕ) → is_ip_char c ≡ true → (is_whitespace c ≡ false) × ((c == b'#') ≡ false)
unfolding is_ip_char is_whitespace
ip_char_start c h = ground arith

kind-ip : (t rest : Text) → t ≢ [] → all is_ip_char t ≡ true → kind (t ++ rest) ≡ other
kind-ip [] rest h k = absurd (h refl)
kind-ip (c ∷ t) rest h k =
    let (space, hash) = ip_char_start c (ground arith) in kind-other c (t ++ rest) space hash

module _ {A : Type 0} ⦃ip : IpAddr A⦄ where
  pub mapping_line-IsLine : (a : A) (d : Text) → IsWritable d → IsLine (mapping_line a d)
  unfolding mapping_line
  mapping_line-IsLine a d w = record {
    not_empty = append-ne-nil (ip.display a) (b' ' ∷ d) (λ e. cc);
    one_line = no_char b'\n' (unfold is_ip_char in refl) (unfold is_whitespace in refl) refl;
    returns =
        strip_suffix-none b'\r' (ip.display a ++ b' ' ∷ d)
          (no_char b'\r' (unfold is_ip_char in refl) (unfold is_whitespace in refl) refl);
  }
    where
      no_char :
          (c : ℕ)
          → is_ip_char c ≡ false
          → is_whitespace c ≡ true
          → (b' ' == c) ≡ false
          → contains_char c (ip.display a ++ b' ' ∷ d) ≡ false
      no_char c h k s =
          rw
            (
              any-append (λ x. x == c) (ip.display a) (b' ' ∷ d),
              not_contains c is_ip_char h (ip.display a) (ip.display_chars a),
              s,
              not_contains_space c k d w.no_space,
            )
            refl

  -- A line with a mapping is no marker, whatever is behind it.
  pub kind-mapping_line : (a : A) (d rest : Text) → kind (mapping_line a d ++ rest) ≡ other
  unfolding mapping_line
  kind-mapping_line a d rest =
      rw (append_assoc (ip.display a) (b' ' ∷ d) rest)
        (kind-ip (ip.display a) (b' ' ∷ d ++ rest) (ip.display-ne-nil a) (ip.display_chars a))
