-- ===== src/Sources/Whitelist/Accepted.antt =====
-- Which entries the whitelist accepts, and what its changes leave in it.
use m_host.Common.{
  Text, ℕ, Bool, true, false, not, ◌||◌, ◌&&◌, List, [], ◌∷◌, ◌++◌, map, ◌≡◌, ◌↔◌, refl, sym, ap,
  ◌∙◌, arith, leb, ◌==◌, any, all, filter, is_empty, eqb, eqb_iff, is_whitespace,
  is_ascii_alphanumeric, is_ascii_digit, starts_with_char, ends_with_char, contains_char, split_by,
  split_char, cons_first, trim, trim_start_by, trim_end_by, len, subst, Bool-cases, inl, inr,
}
use m_host.Common.Result.{ok}
use m_host.Common.Sort.{mem_text}
use m_host.Hosts.Validator.{is_valid_label}
use m_host.Sources.Whitelist.{
  is_ascii, is_ascii_uppercase, to_ascii_lowercase, Lowercase, max_domain_len, is_entry_char,
  check_chars, check_labels, check_structure, validate_trimmed, add_accepted, remove_targets,
  canonical, validate_whitelist_domain,
}

-- A canonical entry: short enough, of the allowed characters, and every label valid.
abbrev pub is_entry : Text → Bool
is_entry d =
    leb (len d) max_domain_len && (all is_entry_char d && all is_valid_label (split_char b'.' d))

check_chars_iff : (s : Text) → (check_chars s ≡ ok tt) ↔ (all is_entry_char s ≡ true)
unfolding check_chars
check_chars_iff [] = ground arith
check_chars_iff (c ∷ s) = ground (arith, check_chars_iff s)

check_labels_iff : (ls : List Text) → (check_labels ls ≡ ok tt) ↔ (all is_valid_label ls ≡ true)
unfolding check_labels is_valid_label
check_labels_iff [] = ground arith
check_labels_iff (l ∷ ls) = ground (arith, check_labels_iff ls)

cons_first_dash :
    (c : ℕ) (ls : List Text) → (c == b'-') ≡ true → all is_valid_label (cons_first c ls) ≡ false
unfolding is_valid_label
cons_first_dash c [] h = ground arith
cons_first_dash c (l ∷ ls) h = ground arith

-- Valid labels leave no separator and no dash in front.
labels-start :
    (s : Text)
    → all is_valid_label (split_char b'.' s) ≡ true
    → (is_empty s ≡ false) × (starts_with_char b'.' s ≡ false) × (starts_with_char b'-' s ≡ false)
unfolding split_by is_valid_label
labels-start [] h = ground arith
labels-start (c ∷ s) h = ground (arith, cons_first_dash c (split_char b'.' s))

abbrev tail_empty : List Text → Bool
tail_empty [] = false
tail_empty (l ∷ ls) = any is_empty ls

tail_empty-cons_first : (c : ℕ) (ls : List Text) → tail_empty (cons_first c ls) ≡ tail_empty ls
tail_empty-cons_first c [] = refl
tail_empty-cons_first c (l ∷ ls) = refl

any_of_tail : (ls : List Text) → tail_empty ls ≡ true → any is_empty ls ≡ true
any_of_tail [] h = h
any_of_tail (l ∷ ls) h = ground arith

-- A separator at the end leaves an empty label behind it.
tail_empty-split : (s : Text) → ends_with_char b'.' s ≡ true → tail_empty (split_char b'.' s) ≡ true
unfolding split_by
tail_empty-split [] h = h
tail_empty-split (c ∷ []) h = ground arith
tail_empty-split (c ∷ d ∷ s) h = ground (
  arith,
  tail_empty-split (d ∷ s),
  any_of_tail (split_char b'.' (d ∷ s)),
  tail_empty-cons_first c (split_char b'.' (d ∷ s)),
)

empty_label_invalid : (ls : List Text) → any is_empty ls ≡ true → all is_valid_label ls ≡ false
unfolding is_valid_label
empty_label_invalid [] h = cc
empty_label_invalid (l ∷ ls) h = ground (arith, empty_label_invalid ls)

labels-end :
    (s : Text) → all is_valid_label (split_char b'.' s) ≡ true → ends_with_char b'.' s ≡ false
labels-end s h = ground (
  arith,
  tail_empty-split s,
  any_of_tail (split_char b'.' s),
  empty_label_invalid (split_char b'.' s),
)

-- An allowed character is none of those that the earlier tests look for.
entry_char :
    (c : ℕ)
    → is_entry_char c ≡ true
    → (is_whitespace c ≡ false)
      × ((c == b'/') ≡ false)
      × ((c == b'\\') ≡ false)
      × ((c == b'*') ≡ false)
unfolding is_entry_char is_whitespace is_ascii_alphanumeric is_ascii_digit
entry_char c h = ground arith

entry_chars :
    (s : Text)
    → all is_entry_char s ≡ true
    → (any is_whitespace s ≡ false)
      × (contains_char b'/' s ≡ false)
      × (contains_char b'\\' s ≡ false)
      × (contains_char b'*' s ≡ false)
entry_chars [] h = ground arith
entry_chars (c ∷ s) h = ground (arith, entry_char c, entry_chars s)

check_structure_iff :
    (s d : Text)
    → (check_structure s ≡ ok d) ↔ ((d ≡ s) × (all is_valid_label (split_char b'.' s) ≡ true))
unfolding check_structure
check_structure_iff s d =
    ground (arith, check_labels_iff (split_char b'.' s), labels-start s, labels-end s)

pub validate_trimmed_iff :
    (s d : Text) → (validate_trimmed s ≡ ok d) ↔ ((d ≡ s) × (is_entry s ≡ true))
unfolding validate_trimmed
validate_trimmed_iff s d =
    ground (arith, check_chars_iff s, entry_chars s, check_structure_iff s d, labels-start s)

trim_free : (s : Text) → any is_whitespace s ≡ false → trim s ≡ s
unfolding trim
trim_free s h = ap (trim_end_by is_whitespace) (starts s h) ∙ ends s h
  where
    starts : (s : Text) → any is_whitespace s ≡ false → trim_start_by is_whitespace s ≡ s
    starts [] h = unfold trim_start_by in refl
    starts (c ∷ s) h = unfold trim_start_by in ground (arith, starts s)

    ends : (s : Text) → any is_whitespace s ≡ false → trim_end_by is_whitespace s ≡ s
    ends [] h = unfold trim_end_by in refl
    ends (c ∷ s) h = unfold trim_end_by in ground (arith, ends s)

entry_ascii : (s : Text) → all is_entry_char s ≡ true → is_ascii s ≡ true
unfolding is_entry_char is_ascii_alphanumeric is_ascii_digit
entry_ascii [] h = refl
entry_ascii (c ∷ s) h = ground (arith, entry_ascii s)

lower_same : (s : Text) → any is_ascii_uppercase s ≡ false → map to_ascii_lowercase s ≡ s
lower_same [] h = refl
lower_same (c ∷ s) h = ground (arith, lower_same s)

module _ ⦃lower : Lowercase⦄ where
  -- A raw entry is accepted exactly when its trimmed lower-case form is at most 253 bytes long, has
  -- only letters, digits, `-` and `.`, and has no label that is empty or has a dash at an end; that
  -- form is what is returned.
  pub validate_whitelist_domain_iff :
      (raw d : Text)
      → (validate_whitelist_domain raw ≡ ok d)
        ↔ ((d ≡ canonical raw) × (is_entry (canonical raw) ≡ true))
  unfolding validate_whitelist_domain
  validate_whitelist_domain_iff raw d = validate_trimmed_iff (canonical raw) d

  -- A text that is an entry, with no capital letter, is its own lower-case form.
  lower_entry :
      (d : Text)
      → all is_entry_char d ≡ true
      → any is_ascii_uppercase d ≡ false
      → lower.to_lowercase d ≡ d
  lower_entry d h k = lower.to_lowercase-ascii d (entry_ascii d h) ∙ lower_same d k

  -- What is accepted is accepted again as it is.
  validate_whitelist_domain_idem :
      (raw d : Text) → validate_whitelist_domain raw ≡ ok d → validate_whitelist_domain d ≡ ok d
  validate_whitelist_domain_idem raw d h =
      let (same, entry) = (validate_whitelist_domain_iff raw d).0 h in
      let entry_d : is_entry d ≡ true = rw same entry in
      let chars : all is_entry_char d ≡ true = ground arith in
      let no_upper : any is_ascii_uppercase d ≡ false =
        rw same (lower.to_lowercase_lower (trim raw)) in
      let fixed : canonical d ≡ d =
        ap lower.to_lowercase (trim_free d (entry_chars d chars).0)
        ∙ lower_entry d chars no_upper in
      (validate_whitelist_domain_iff d d).1 (sym fixed, rw fixed entry_d)

-- The list has no entry twice.
abbrev pub unique : List Text → Bool
unique [] = true
unique (d ∷ ds) = not (mem_text d ds) && unique ds

mem_text-append :
    (t : Text) (xs ys : List Text) → mem_text t (xs ++ ys) ≡ (mem_text t xs || mem_text t ys)
mem_text-append t [] ys = refl
mem_text-append t (x ∷ xs) ys = ground (arith, mem_text-append t xs ys)

unique-snoc :
    (xs : List Text) (d : Text)
    → unique xs ≡ true
    → mem_text d xs ≡ false
    → unique (xs ++ d ∷ []) ≡ true
unique-snoc [] d h k = refl
unique-snoc (x ∷ xs) d h k =
    ground (arith, unique-snoc xs d, mem_text-append x xs (d ∷ []), eqb_iff d x, eqb_iff x d)

known_text :
    (d : Text) (ws : List Text)
    → mem_text d ws ≡ true
    → (t : Text) → eqb d t ≡ true
    → mem_text t ws ≡ true
known_text d ws h t e = subst (λ x. mem_text x ws ≡ true) ((eqb_iff d t).0 e) h

-- Adding entries keeps the whitelist free of duplicates, and its entries are those it had and those
-- accepted.
pub add_accepted-unique :
    (ds ws : List Text)
    → unique ws ≡ true
    → (unique (add_accepted ds ws).1 ≡ true)
      × ((t : Text) → mem_text t (add_accepted ds ws).1 ≡ (mem_text t ws || mem_text t ds))
unfolding add_accepted
add_accepted-unique [] ws h = (h, λ t. ground arith)
add_accepted-unique (d ∷ ds) ws h = elim (Bool-cases (mem_text d ws)) [
  | inl known ↦
      let (u, m) = add_accepted-unique ds ws h in
      (rw known u, λ t. rw known (ground (arith, m t, known_text d ws known t)))
  | inr fresh ↦
      let (u, m) = add_accepted-unique ds (ws ++ d ∷ []) (unique-snoc ws d h fresh) in
      (rw fresh u, λ t. rw fresh (ground (arith, m t, mem_text-append t ws (d ∷ []))))
]

mem_text-filter :
    (t target : Text) (ws : List Text)
    → mem_text t (filter (λ d. not (eqb d target)) ws) ≡ (mem_text t ws && not (eqb t target))
mem_text-filter t target [] = refl
mem_text-filter t target (w ∷ ws) =
    ground (arith, mem_text-filter t target ws, eqb_iff w t, eqb_iff w target, eqb_iff t target)

-- Removal leaves exactly the entries that are no target.
pub remove_targets-mem :
    (targets ws : List Text) (t : Text)
    → mem_text t (remove_targets targets ws).1 ≡ (mem_text t ws && not (mem_text t targets))
unfolding remove_targets
remove_targets-mem [] ws t = ground arith
remove_targets-mem (target ∷ targets) ws t = ground (
  arith,
  remove_targets-mem targets (filter (λ d. not (eqb d target)) ws) t,
  mem_text-filter t target ws,
  eqb_iff t target,
  eqb_iff target t,
)
