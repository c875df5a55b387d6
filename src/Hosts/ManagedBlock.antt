-- ===== src/Hosts/ManagedBlock.antt =====
-- The managed block of src-tauri/crates/mhost-hosts/src/parser.rs: its place by lines and by bytes.
pub mod Agreement
pub mod Shape
use m_host.Common.{
  Text, ℕ, suc, ◌+◌, ◌-◌, Bool, ◌||◌, Option, none, some, List, [], ◌∷◌, ◌==◌, leb, if◌then◌else◌,
  is_some, and_then, codes, eqb, trim, trim_end_by, split_inclusive, lines, len, take, drop,
  join_lines,
}

abbrev pub managed_start : Text
managed_start = codes "# ---- mHost start ----"

abbrev pub managed_end : Text
managed_end = codes "# ---- mHost end ----"

-- What the trimmed line is to the two extractors.
pub data Mark : Type 0 where
  start end other : Mark

unfoldable pub mark_of : Text → Mark
mark_of trimmed =
    if eqb trimmed managed_start then start else if eqb trimmed managed_end then end else other

-- The variables `start` and `end` of the loops.
pub record Found : Type 0 where
  pub first : Option ℕ
  pub last : Option ℕ

unfoldable pub note : Mark → ℕ → ℕ → Found → Option Found
note start here after f = if is_some f.first then none else some (record f { first = some here })
note end here after f = if is_some f.last then none else some (record f { last = some after })
note other here after f = some f

-- The `match` behind the loops.
close_pair : Option ℕ → Option ℕ → Option (ℕ × ℕ)
close_pair (some s) (some e) = if leb s e then some (s, e) else none
close_pair _ _ = none

unfoldable pub close : Option Found → Option (ℕ × ℕ)
unfolding close_pair
close none = none
close (some f) = close_pair f.first f.last

abbrev pub nothing_yet : Found
nothing_yet = record { first = none; last = none }

-- The loop of `extract_managed_block` from line `i` on; `none` is the early return.
unfoldable pub scan_lines : ℕ → List Text → Found → Option Found
scan_lines i [] f = some f
scan_lines i (l ∷ ls) f = and_then (note (mark_of (trim l)) i i f) (λ g. scan_lines (suc i) ls g)

unfoldable pub extract_managed_block : Text → Option (ℕ × ℕ)
extract_managed_block input = close (scan_lines 0 (lines input) nothing_yet)

unfoldable pub is_line_break : ℕ → Bool
is_line_break c = c == b'\n' || c == b'\r'

-- The loop of `extract_managed_block_bytes` from byte `pos` on.
unfoldable pub scan_bytes : ℕ → List Text → Found → Option Found
scan_bytes pos [] f = some f
scan_bytes pos (l ∷ ls) f =
    and_then (note (mark_of (trim (trim_end_by is_line_break l))) pos (pos + len l) f)
      (λ g. scan_bytes (pos + len l) ls g)

unfoldable pub extract_managed_block_bytes : Text → Option (ℕ × ℕ)
extract_managed_block_bytes input = close (scan_bytes 0 (split_inclusive input) nothing_yet)

-- `lines[start + 1..end]`, joined; the slice is not taken where `end <= start + 1`.
unfoldable pub content_between : List Text → ℕ × ℕ → Text
content_between ls (s, e) =
    if leb e (s + 1) then [] else join_lines (take (e - (s + 1)) (drop (s + 1) ls))

unfoldable pub extract_managed_block_content : Text → Option Text
extract_managed_block_content input =
    and_then (extract_managed_block input) (λ range. some (content_between (lines input) range))
