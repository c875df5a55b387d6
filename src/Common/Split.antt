-- ===== src/Common/Split.antt =====
-- Cutting a text: at a character, into lines, into words, and at a byte offset.
use Prim.Native.Nat.{ℕ, zero, suc, ◌+◌, ◌-◌, ◌<◌}
use mathlib.Core.Bool.{Bool, not}
use mathlib.Core.List.{List, [], ◌∷◌, ◌++◌, map}
use mathlib.Core.Option
use mathlib.Core.Option.{Option, none, some}
use native.Mathlib.Omega.{arith}
use m_host.Common.Tests.{ltb, leb, ◌==◌, if◌then◌else◌}
use m_host.Common.Lists.{filter, is_empty}
use m_host.Common.Chars.{Text, is_whitespace}

-- Puts a character in front of the first piece.
abbrev pub cons_first : ℕ → List Text → List Text
cons_first c [] = (c ∷ []) ∷ []
cons_first c (l ∷ ls) = (c ∷ l) ∷ ls

-- `s.split(p)`: always at least one piece
unfoldable pub split_by : (ℕ → Bool) → Text → List Text
split_by p [] = [] ∷ []
split_by p (c ∷ s) = let rest = split_by p s in if p c then [] ∷ rest else cons_first c rest

abbrev pub split_char : ℕ → Text → List Text
split_char c = split_by (λ x. x == c)

unfoldable pub split_whitespace : Text → List Text
unfolding split_by is_whitespace
split_whitespace s = filter (λ w. not (is_empty w)) (split_by is_whitespace s)

-- `s.split_once(c)`: before and behind the first occurrence
unfoldable pub split_once : ℕ → Text → Option (Text × Text)
split_once c [] = none
split_once c (x ∷ s) =
    let rest = split_once c s in
    if x == c then some ([], s) else elim rest [ none ↦ none | some (a, b) ↦ some (x ∷ a, b) ]

-- before and behind the last occurrence, as cut by `s.rfind(c)`
unfoldable pub rsplit_once : ℕ → Text → Option (Text × Text)
rsplit_once c [] = none
rsplit_once c (x ∷ s) = elim (rsplit_once c s) [
  | some (a, b) ↦ some (x ∷ a, b)
  | none ↦ if x == c then some ([], s) else none
]

-- `s.split_inclusive('\n')`
unfoldable pub split_inclusive : Text → List Text
split_inclusive [] = []
split_inclusive (c ∷ s) =
    let rest = split_inclusive s in if c == b'\n' then (c ∷ []) ∷ rest else cons_first c rest

-- `l.strip_suffix(c)`
unfoldable pub strip_suffix : ℕ → Text → Option Text
strip_suffix c [] = none
strip_suffix c (x ∷ []) = if x == c then some [] else none
strip_suffix c (x ∷ y ∷ s) = Option.map (λ t. x ∷ t) (strip_suffix c (y ∷ s))

strip_return : Text → Text
strip_return l = elim (strip_suffix b'\r' l) [ none ↦ l | some m ↦ m ]

-- The end of a line, `\n` or `\r\n`, goes; a `\r` with no `\n` behind it stays.
unfoldable pub strip_line_end : Text → Text
unfolding strip_return
strip_line_end l = elim (strip_suffix b'\n' l) [ none ↦ l | some m ↦ strip_return m ]

-- `s.lines()`
unfoldable pub lines : Text → List Text
lines s = map strip_line_end (split_inclusive s)

-- `char::len_utf8`
unfoldable pub char_len : ℕ → ℕ
char_len c = if ltb c 0x80 then 1 else if ltb c 0x800 then 2 else if ltb c 0x10000 then 3 else 4

-- `s.len()`, in bytes
unfoldable pub len : Text → ℕ
len [] = 0
len (c ∷ s) = char_len c + len s

-- `&s[..n]` and `&s[n..]`; `none` is the panic out of range or inside a character.
unfoldable pub slice_to : ℕ → Text → Option Text
slice_to zero s = some []
slice_to (suc n) [] = none
slice_to (suc n) (c ∷ s) =
    let rest = slice_to (suc n - char_len c) s in
    if leb (char_len c) (suc n) then Option.map (λ t. c ∷ t) rest else none

unfoldable pub slice_from : ℕ → Text → Option Text
slice_from zero s = some s
slice_from (suc n) [] = none
slice_from (suc n) (c ∷ s) =
    let rest = slice_from (suc n - char_len c) s in if leb (char_len c) (suc n) then rest else none

pub char_len_pos : (c : ℕ) → 0 < char_len c
unfolding char_len
char_len_pos c = ground arith

-- The text that the pieces make up.
abbrev pub concat : List Text → Text
concat [] = []
concat (l ∷ ls) = l ++ concat ls

-- `lines.join("\n")`
unfoldable pub join_lines : List Text → Text
join_lines [] = []
join_lines (l ∷ []) = l
join_lines (l ∷ m ∷ ls) = l ++ b'\n' ∷ join_lines (m ∷ ls)
