-- ===== src/Dns/Trie.antt =====
-- src-tauri/crates/mhost-dns/src/trie.rs. The children of a node are the entries of its `HashMap`,
-- with distinct keys; no result depends on their order.
pub mod Lookup
use m_host.Common.{
  Text, ℕ, zero, suc, ◌+◌, Bool, true, false, ◌&&◌, not, Option, none, some, List, [], ◌∷◌,
  if◌then◌else◌, is_empty, is_some, eqb, length,
}
use m_host.Dns.Labels.{last_label, labels_of}

mutual
  pub data TrieNode (V : Type 0) : Type 0 where
    node : Children V → Option V → TrieNode V

  pub data Children (V : Type 0) : Type 0 where
    nil : Children V
    child : Text → TrieNode V → Children V → Children V

module _ {V : Type 0} where
  -- `TrieNode::new`, and `Trie::default`
  abbrev pub new : TrieNode V
  new = node nil none

  unfoldable pub get_child : Text → Children V → Option (TrieNode V)
  get_child l nil = none
  get_child l (child k n cs) = let rest = get_child l cs in if eqb k l then some n else rest

  -- The node behind `get_mut` is written in place; a missing one is inserted first.
  unfoldable pub put_child : Text → TrieNode V → Children V → Children V
  put_child l m nil = child l m nil
  put_child l m (child k n cs) =
      let rest = put_child l m cs in if eqb k l then child k m cs else child k n rest

  unfoldable pub child_or_new : Option (TrieNode V) → TrieNode V
  child_or_new none = new
  child_or_new (some n) = n

  -- The descent of `insert` over the labels, and the write at its end.
  unfoldable pub insert_at : List Text → V → TrieNode V → TrieNode V
  unfolding child_or_new
  insert_at [] value (node cs d) = node cs (some value)
  insert_at (l ∷ ls) value (node cs d) =
      node (put_child l (insert_at ls value (child_or_new (get_child l cs))) cs) d

  unfoldable pub insert_labels : List Text → V → TrieNode V → TrieNode V
  insert_labels [] value root = root
  insert_labels (l ∷ ls) value root = insert_at (l ∷ ls) value root

  unfoldable pub insert : Text → V → TrieNode V → TrieNode V
  unfolding insert_labels
  insert domain value root = insert_labels (labels_of domain) value root

  -- `if let Some(d) = &child.data { best = Some(d) }`
  abbrev pub deeper : Option V → Option V → Option V
  deeper none best = best
  deeper (some d) best = some d

  abbrev pub data_of : TrieNode V → Option V
  data_of (node cs d) = d

  abbrev pub children_of : TrieNode V → Children V
  children_of (node cs d) = cs

  -- The loop of `find_longest_suffix_match`.
  unfoldable pub find_from : ℕ → Text → TrieNode V → Option V → Option V
  find_from zero rest n best = best
  find_from (suc fuel) rest n best =
      let (label, new_rest) = last_label rest in
      if is_empty label then best else elim (get_child label (children_of n)) [
        | none ↦ best
        | some c ↦
            let best' = deeper (data_of c) best in
            let next = find_from fuel new_rest c best' in if is_empty new_rest then best' else next
      ]

  unfoldable pub find_longest_suffix_match : TrieNode V → Text → Option V
  find_longest_suffix_match root domain = find_from (suc (length domain)) domain root (data_of root)

  unfoldable pub no_children : Children V → Bool
  no_children nil = true
  no_children (child _ _ _) = false

  unfoldable pub is_empty_trie : TrieNode V → Bool
  unfolding no_children
  is_empty_trie root = no_children (children_of root) && not (is_some (data_of root))

-- `as usize`
abbrev pub to_usize : Bool → ℕ
to_usize true = 1
to_usize false = 0

module _ {V : Type 0} where
  unfoldable mutual
    pub terminal_count : TrieNode V → ℕ
    terminal_count (node cs d) = to_usize (is_some d) + terminal_counts cs

    pub terminal_counts : Children V → ℕ
    terminal_counts nil = 0
    terminal_counts (child _ n cs) = terminal_count n + terminal_counts cs

  unfoldable mutual
    pub recursive_node_count : TrieNode V → ℕ
    recursive_node_count (node cs d) = 1 + node_counts cs

    pub node_counts : Children V → ℕ
    node_counts nil = 0
    node_counts (child _ n cs) = recursive_node_count n + node_counts cs

  -- `len` and `node_count`
  unfoldable pub len : TrieNode V → ℕ
  len root = to_usize (is_some (data_of root)) + terminal_counts (children_of root)

  unfoldable pub node_count : TrieNode V → ℕ
  node_count root = 1 + node_counts (children_of root)
