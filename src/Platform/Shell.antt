-- ===== src/Platform/Shell.antt =====
-- src-tauri/crates/mhost-dns/src/platform.rs: quoting for the shell.
use m_host.Common.{
  Text, ℕ, Option, none, some, [], ◌∷◌, ◌≡◌, refl, sym, ap, if◌then◌else◌, ◌==◌, ==_iff, Bool-cases,
  inl, inr,
}
use mathlib.Core.Option

-- The loop over the characters, and the quote behind it.
unfoldable pub quote_chars : Text → Text
quote_chars [] = b'\'' ∷ []
quote_chars (c ∷ s) =
    let rest = quote_chars s in
    if c == b'\'' then b'\'' ∷ b'\\' ∷ b'\'' ∷ b'\'' ∷ rest else c ∷ rest

unfoldable pub shell_single_quote : Text → Text
unfolding quote_chars
shell_single_quote s = b'\'' ∷ quote_chars s

-- How a POSIX shell reads one word of single quotes and escaped characters: the text of the word, and
-- nothing where the word has any other character outside quotes or a quote is not closed.
abbrev pub one_more : ℕ → Option Text → Option Text
one_more c o = Option.map (λ t. c ∷ t) o

-- Inside quotes, outside them, and behind a backslash.
pub data Mode : Type 0 where
  inside outside escaped : Mode

unfoldable pub read_word : Mode → Text → Option Text
read_word inside [] = none
read_word inside (c ∷ s) =
    let closed = read_word outside s in
    let more = read_word inside s in if c == b'\'' then closed else one_more c more
read_word outside [] = some []
read_word outside (c ∷ s) =
    let opened = read_word inside s in
    let escape = read_word escaped s in
    if c == b'\'' then opened else if c == b'\\' then escape else none
read_word escaped [] = none
read_word escaped (c ∷ s) = one_more c (read_word outside s)

read_word-quote_chars : (s : Text) → read_word inside (quote_chars s) ≡ some s
unfolding quote_chars read_word
read_word-quote_chars [] = refl
read_word-quote_chars (c ∷ s) = elim (Bool-cases (c == b'\'')) [
  | inl e ↦ rw (e, read_word-quote_chars s) (ap (λ x. some (x ∷ s)) (sym ((==_iff c b'\'').0 e)))
  | inr e ↦ rw e (rw (e, read_word-quote_chars s) refl)
]

-- A shell reads a quoted text as one word, which is that text, whatever characters it has.
pub read_word-shell_single_quote : (s : Text) → read_word outside (shell_single_quote s) ≡ some s
unfolding shell_single_quote read_word
read_word-shell_single_quote s = read_word-quote_chars s
