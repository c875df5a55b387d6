-- ===== src/Dns/Labels.antt =====
-- The walk over the labels of a domain from the right, which `insert` and
-- `find_longest_suffix_match` of src-tauri/crates/mhost-dns/src/trie.rs share. A loop takes fuel,
-- one more than the characters of the domain: each round drops at least one.
pub mod Storage
pub mod Fuel
use m_host.Common.{
  Text, ℕ, zero, suc, ◌+◌, ◌≤◌, ◌<◌, Bool, true, false, Option, none, some, List, [], ◌∷◌, ◌++◌,
  ◌==◌, ltb, if◌then◌else◌, is_empty, length, rsplit_once, ◌≡◌, refl, arith,
}

-- `match rest.rfind('.')`: the last label, and what stands in front of its dot
unfoldable pub last_label : Text → Text × Text
last_label rest = elim (rsplit_once b'.' rest) [
  | some (front, label) ↦ (label, front)
  | none ↦ (rest, [])
]

-- The storage of `insert`: sixteen labels in place, then a vector that holds them all.
pub record Buffer : Type 0 where
  pub inline : List Text
  pub spilled : List Text

abbrev pub max_inline_labels : ℕ
max_inline_labels = 16

unfoldable pub push_label : Text → Buffer → Buffer
push_label label b =
    if ltb (length b.inline) max_inline_labels
    then record b { inline = b.inline ++ label ∷ [] }
    else record b { spilled = (if is_empty b.spilled then b.inline else b.spilled) ++ label ∷ [] }

unfoldable pub buffered : Buffer → List Text
buffered b = if is_empty b.spilled then b.inline else b.spilled

-- The loop of `insert`.
unfoldable pub collect_labels : ℕ → Text → Buffer → Buffer
collect_labels zero rest b = b
collect_labels (suc fuel) rest b =
    let (label, new_rest) = last_label rest in
    let b' = push_label label b in
    let next = collect_labels fuel new_rest b' in
    if is_empty label then b else if is_empty new_rest then b' else next

unfoldable pub labels_of : Text → List Text
labels_of domain =
    buffered (collect_labels (suc (length domain)) domain (record { inline = []; spilled = [] }))

-- The labels that both loops visit, with no storage.
unfoldable pub labels_from : ℕ → Text → List Text
labels_from zero rest = []
labels_from (suc fuel) rest =
    let (label, new_rest) = last_label rest in
    let next = labels_from fuel new_rest in
    if is_empty label then [] else label ∷ (if is_empty new_rest then [] else next)

abbrev pub right_labels : Text → List Text
right_labels domain = labels_from (suc (length domain)) domain
