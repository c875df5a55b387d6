-- ===== src/Hosts/ManagedBlock/Agreement.antt =====
-- The extractor by bytes finds the lines that the extractor by lines finds.
use mathlib.Core.Option
use m_host.Common.{
  Text, ℕ, suc, ◌+◌, true, Option, some, List, [], ◌∷◌, ◌++◌, and_then, and_then_ext, and_then-map,
  all, is_whitespace, trim, trim_end_by, split_inclusive, strip_line_end, lines, len, concat, take,
  length, map, ◌≡◌, refl, ap, ◌∙◌, sym, arith, append_assoc, append-nil, length-append,
}
use m_host.Common.Cutting.{len-append, concat-append}
use m_host.Common.Trimming.{trim-strip_line_end, trim-trim_end_by}
use m_host.Hosts.ManagedBlock.{
  Mark, start, end, other, mark_of, Found, note, close, scan_lines, scan_bytes, nothing_yet,
  extract_managed_block, extract_managed_block_bytes, is_line_break,
}

-- What a piece of the input is to both loops.
abbrev pub kind : Text → Mark
kind l = mark_of (trim l)

line_break_space : (ws : Text) → all is_line_break ws ≡ true → all is_whitespace ws ≡ true
unfolding is_line_break is_whitespace
line_break_space [] h = refl
line_break_space (c ∷ ws) h = ground (arith, line_break_space ws)

trim_piece : (l : Text) → trim (trim_end_by is_line_break l) ≡ trim l
trim_piece l = trim-trim_end_by is_line_break l line_break_space

-- The scan of the pieces by their kinds, which both loops are.
unfoldable pub scan : ℕ → List Text → Found → Option Found
scan i [] f = some f
scan i (l ∷ ls) f = and_then (note (kind l) i i f) (λ g. scan (suc i) ls g)

scan_lines-eq-scan :
    (i : ℕ) (ls : List Text) (f : Found) → scan_lines i (map strip_line_end ls) f ≡ scan i ls f
unfolding scan scan_lines
scan_lines-eq-scan i [] f = refl
scan_lines-eq-scan i (l ∷ ls) f =
    rw (trim-strip_line_end l)
      (and_then_ext (note (kind l) i i f) (λ g. scan_lines-eq-scan (suc i) ls g))

-- Where line `i` starts: `off` grows by the bytes of each line.
abbrev pub Steps : (ℕ → ℕ) → ℕ → List Text → Type 0
Steps off i [] = Unit
Steps off i (l ∷ ls) = (off (suc i) ≡ off i + len l) × Steps off (suc i) ls

-- Line numbers of a state turned into bytes.
abbrev pub in_bytes : (ℕ → ℕ) → Found → Found
in_bytes off f = record {
  first = Option.map off f.first;
  last = Option.map (λ e. off (suc e)) f.last;
}

note-in_bytes :
    (off : ℕ → ℕ) (m : Mark) (i : ℕ) (f : Found)
    → note m (off i) (off (suc i)) (in_bytes off f) ≡ Option.map (in_bytes off) (note m i i f)
unfolding note
note-in_bytes off start i f = ground arith
note-in_bytes off end i f = ground arith
note-in_bytes off other i f = refl

scan_bytes-eq-scan :
    (off : ℕ → ℕ) (ls : List Text) (i : ℕ) (f : Found)
    → Steps off i ls
    → scan_bytes (off i) ls (in_bytes off f) ≡ Option.map (in_bytes off) (scan i ls f)
unfolding scan scan_bytes
scan_bytes-eq-scan off [] i f h = refl
scan_bytes-eq-scan off (l ∷ ls) i f h =
    rw (trim_piece l, ← h.0, note-in_bytes off (kind l) i f)
      (and_then-map (in_bytes off) (in_bytes off) (note (kind l) i i f) _ _
        (λ g. scan_bytes-eq-scan off ls (suc i) g h.1))

-- The byte at which line `i` of a list of pieces starts.
abbrev pub offset : List Text → ℕ → ℕ
offset ls i = len (concat (take i ls))

take_front : (qs ls : List Text) → take (length qs) (qs ++ ls) ≡ qs
take_front [] [] = refl
take_front [] (l ∷ ls) = refl
take_front (q ∷ qs) ls = rw (take_front qs ls)

take_past :
    (qs : List Text) (l : Text) (ls : List Text)
    → take (suc (length qs)) (qs ++ l ∷ ls) ≡ qs ++ l ∷ []
take_past [] l [] = refl
take_past [] l (m ∷ ls) = refl
take_past (q ∷ qs) l ls = ap (◌∷◌ q) (take_past qs l ls)

pub offset-front :
    (ps qs ls : List Text) (i : ℕ) → ps ≡ qs ++ ls → i ≡ length qs → offset ps i ≡ len (concat qs)
offset-front ps qs ls i h k = rw (h, k, take_front qs ls) refl

offset-past :
    (qs : List Text) (l : Text) (ls : List Text)
    → offset (qs ++ l ∷ ls) (suc (length qs)) ≡ offset (qs ++ l ∷ ls) (length qs) + len l
offset-past qs l ls =
    rw (take_past qs l ls, take_front qs (l ∷ ls), concat-append qs (l ∷ []), append-nil)
      (len-append (concat qs) l)

offset-Steps :
    (ls ps qs : List Text) (i : ℕ) → ps ≡ qs ++ ls → i ≡ length qs → Steps (offset ps) i ls
offset-Steps [] ps qs i h k = tt
offset-Steps (l ∷ ls) ps qs i h k = (
  rw (h, k) (offset-past qs l ls),
  offset-Steps ls ps (qs ++ l ∷ []) (suc i) (h ∙ sym (append_assoc qs (l ∷ []) ls))
      (omega (arith, length-append {0} qs (l ∷ []))),
)

-- The bytes that the one extractor returns are those of the lines that the other returns.
pub extract_bytes-eq :
    (input : Text)
    → extract_managed_block_bytes input
      ≡ close (
          Option.map
            (in_bytes (offset (split_inclusive input)))
            (scan 0 (split_inclusive input) nothing_yet))
unfolding extract_managed_block_bytes len
extract_bytes-eq input = ap close (
    scan_bytes-eq-scan (offset (split_inclusive input)) (split_inclusive input) 0 nothing_yet
      (offset-Steps (split_inclusive input) _ [] 0 refl refl))

pub extract_lines-eq :
    (input : Text)
    → extract_managed_block input ≡ close (scan 0 (split_inclusive input) nothing_yet)
unfolding extract_managed_block lines
extract_lines-eq input = ap close (scan_lines-eq-scan 0 (split_inclusive input) nothing_yet)
