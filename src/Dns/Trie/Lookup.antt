-- ===== src/Dns/Trie/Lookup.antt =====
-- The trie against a map from label paths: exact entries, and the longest registered suffix.
use m_host.Common.{
  Text, ℕ, zero, suc, Bool, true, false, ◌&&◌, Option, none, some, List, [], ◌∷◌, if◌then◌else◌,
  is_empty, and_then, eqb, eqb_iff, ◌≡◌, refl, ap, sym, ◌∙◌, arith, Bool-cases, inl, inr, length,
}
use m_host.Dns.Labels.{last_label, labels_from, right_labels}
use m_host.Dns.Labels.Storage.{labels_of-eq-right_labels}
use m_host.Dns.Trie.{
  TrieNode, node, Children, nil, child, new, get_child, put_child, insert_at, insert, deeper,
  data_of, children_of, find_from, find_longest_suffix_match, child_or_new, insert_labels,
  is_empty_trie, no_children,
}

unfoldable pub same_labels : List Text → List Text → Bool
same_labels [] [] = true
same_labels (l ∷ ls) (k ∷ ks) = eqb l k && same_labels ls ks
same_labels _ _ = false

if_same : {A : Type 0} (b : Bool) (x : A) → (if b then x else x) ≡ x
if_same true x = refl
if_same false x = refl

module _ {V : Type 0} where
  -- The value registered at exactly these labels.
  unfoldable pub get_at : List Text → TrieNode V → Option V
  get_at [] n = data_of n
  get_at (l ∷ ls) n = and_then (get_child l (children_of n)) (get_at ls)

  -- The value of the longest front part of the labels that has one.
  abbrev pub longest : (List Text → Option V) → List Text → Option V
  longest f [] = f []
  longest f (l ∷ ls) = deeper (longest (λ p. f (l ∷ p)) ls) (f [])

  get_child-put_child :
      (k l : Text) (m : TrieNode V) (cs : Children V)
      → get_child k (put_child l m cs) ≡ (if eqb l k then some m else get_child k cs)
  unfolding get_child put_child
  get_child-put_child k l m nil = refl
  get_child-put_child k l m (child j n cs) =
      ground (arith, get_child-put_child k l m cs, eqb_iff j l, eqb_iff j k, eqb_iff l k)

  get_at-new : (ks : List Text) → ◌≡◌ {A = Option V} (get_at ks new) none
  unfolding get_at get_child
  get_at-new [] = refl
  get_at-new (k ∷ ks) = refl

  get_at-child_or_new :
      (ks : List Text) (o : Option (TrieNode V))
      → get_at ks (child_or_new o) ≡ and_then o (get_at ks)
  unfolding child_or_new
  get_at-child_or_new ks none = get_at-new ks
  get_at-child_or_new ks (some c) = refl

  -- An insertion changes the value at its own labels and at no others.
  pub get_at-insert_at :
      (ks ls : List Text) (v : V) (n : TrieNode V)
      → get_at ks (insert_at ls v n) ≡ (if same_labels ls ks then some v else get_at ks n)
  unfolding get_at insert_at same_labels
  get_at-insert_at [] [] v (node cs d) = refl
  get_at-insert_at [] (l ∷ ls) v (node cs d) = refl
  get_at-insert_at (k ∷ ks) [] v (node cs d) = refl
  get_at-insert_at (k ∷ ks) (l ∷ ls) v (node cs d) =
      let old = child_or_new (get_child l cs) in
      ap (λ o. and_then o (get_at ks)) (get_child-put_child k l (insert_at ls v old) cs)
      ∙ elim (Bool-cases (eqb l k)) [
        | inl same ↦ rw same (
            get_at-insert_at ks ls v old
            ∙ rw (get_at-child_or_new ks (get_child l cs), (eqb_iff l k).0 same) refl)
        | inr other ↦ rw other refl
      ]

  longest-none : (ls : List Text) → ◌≡◌ {A = Option V} (longest (λ _. none) ls) none
  longest-none [] = refl
  longest-none (l ∷ ls) = rw (longest-none ls) refl

  find_labels : List Text → TrieNode V → Option V → Option V
  find_labels [] n best = best
  find_labels (l ∷ ls) n best = elim (get_child l (children_of n)) [
    | none ↦ best
    | some c ↦ find_labels ls c (deeper (data_of c) best)
  ]

  find_from-eq-find_labels :
      (fuel : ℕ) (rest : Text) (n : TrieNode V) (best : Option V)
      → find_from fuel rest n best ≡ find_labels (labels_from fuel rest) n best
  unfolding find_from find_labels labels_from
  find_from-eq-find_labels zero rest n best = refl
  find_from-eq-find_labels (suc fuel) rest n best =
      let (label, new_rest) = last_label rest in
      step (is_empty label) (is_empty new_rest) (get_child label (children_of n)) refl
        (λ c b. find_from-eq-find_labels fuel new_rest c b)
    where
      step :
          (e1 e2 : Bool) (o : Option (TrieNode V))
          → get_child (last_label rest).0 (children_of n) ≡ o
          → ((c : TrieNode V) (b : Option V)
              → find_from fuel (last_label rest).1 c b
                ≡ find_labels (labels_from fuel (last_label rest).1) c b)
          → (if e1 then best else elim o [
            | none ↦ best
            | some c ↦
                if e2
                then deeper (data_of c) best
                else find_from fuel (last_label rest).1 c (deeper (data_of c) best)
          ])
            ≡ find_labels
                (if e1
                  then []
                  else (last_label rest).0
                    ∷ (if e2 then [] else labels_from fuel (last_label rest).1))
                n
                best
      step true e2 o h ih = refl
      step false e2 none h ih = rw (find_labels, h) refl
      step false true (some c) h ih = rw (find_labels, h) refl
      step false false (some c) h ih = rw (find_labels, h) (ih c (deeper (data_of c) best))

  deeper-none : (a : Option V) → deeper a none ≡ a
  deeper-none none = refl
  deeper-none (some a) = refl

  deeper_assoc : (a b c : Option V) → deeper a (deeper b c) ≡ deeper (deeper a b) c
  deeper_assoc none b c = refl
  deeper_assoc (some a) b c = refl

  find_labels-eq-longest :
      (ls : List Text) (n : TrieNode V) (best : Option V)
      → find_labels ls n (deeper (data_of n) best) ≡ deeper (longest (λ p. get_at p n) ls) best
  unfolding find_labels get_at
  find_labels-eq-longest [] n best = refl
  find_labels-eq-longest (l ∷ ls) n best =
      step (get_child l (children_of n))
        (λ c. find_labels-eq-longest ls c (deeper (data_of n) best))
    where
      step :
          (o : Option (TrieNode V))
          → ((c : TrieNode V)
              → find_labels ls c (deeper (data_of c) (deeper (data_of n) best))
                ≡ deeper (longest (λ p. get_at p c) ls) (deeper (data_of n) best))
          → (elim o [
            | none ↦ deeper (data_of n) best
            | some c ↦ find_labels ls c (deeper (data_of c) (deeper (data_of n) best))
          ])
            ≡ deeper (deeper (longest (λ p. and_then o (get_at p)) ls) (data_of n)) best
      step none ih = rw (longest-none ls) refl
      step (some c) ih = ih c ∙ deeper_assoc (longest (λ p. get_at p c) ls) (data_of n) best

  -- A lookup in any trie returns the value of the longest front part of the labels of the domain,
  -- read from the right, that is registered, and nothing when none is.
  pub find_longest_suffix_match-eq-longest :
      (root : TrieNode V) (domain : Text)
      → find_longest_suffix_match root domain ≡ longest (λ p. get_at p root) (right_labels domain)
  unfolding find_longest_suffix_match
  find_longest_suffix_match-eq-longest root domain =
      find_from-eq-find_labels (suc (length domain)) domain root (data_of root)
      ∙ ap (find_labels (right_labels domain) root) (sym (deeper-none (data_of root)))
      ∙ find_labels-eq-longest (right_labels domain) root none
      ∙ deeper-none (longest (λ p. get_at p root) (right_labels domain))

  get_at-insert_labels :
      (ks ls : List Text) (v : V) (root : TrieNode V)
      → is_empty ls ≡ false
      → get_at ks (insert_labels ls v root) ≡ (if same_labels ls ks then some v else get_at ks root)
  unfolding insert_labels
  get_at-insert_labels ks [] v root h = absurd (cc)
  get_at-insert_labels ks (l ∷ ls) v root h = get_at-insert_at ks (l ∷ ls) v root

  -- A domain whose last label is not empty is registered at its labels, over an older value, and
  -- every other registration keeps its value.
  pub get_at-insert :
      (ks : List Text) (domain : Text) (v : V) (root : TrieNode V)
      → is_empty (right_labels domain) ≡ false
      → get_at ks (insert domain v root)
        ≡ (if same_labels (right_labels domain) ks then some v else get_at ks root)
  unfolding insert
  get_at-insert ks domain v root h =
      ap (λ ls. get_at ks (insert_labels ls v root)) (labels_of-eq-right_labels domain)
      ∙ get_at-insert_labels ks (right_labels domain) v root h

  -- An empty trie covers no domain.
  pub find-is_empty_trie :
      (root : TrieNode V) (domain : Text)
      → is_empty_trie root ≡ true
      → find_longest_suffix_match root domain ≡ none
  unfolding find_longest_suffix_match find_from is_empty_trie get_child no_children
  find-is_empty_trie (node nil none) domain h = if_same (is_empty (last_label domain).0) none
  find-is_empty_trie (node nil (some d)) domain h = absurd (cc)
  find-is_empty_trie (node (child k n cs) d) domain h = absurd (cc)
