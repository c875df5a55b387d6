-- ===== src/Dns/Labels/Storage.antt =====
-- The inline buffer with its spill is a plain list, and the fuel of the label loops is enough.
use m_host.Common.{
  Text, ℕ, zero, suc, ◌<◌, false, List, [], ◌∷◌, ◌++◌, ltb, if◌then◌else◌, is_empty, length, ◌≡◌,
  refl, ap, sym, ◌∙◌, arith, append_assoc, append-nil, Bool-cases, inl, inr,
}
use m_host.Dns.Labels.{
  last_label, Buffer, max_inline_labels, push_label, buffered, collect_labels, labels_of,
  labels_from, right_labels,
}

-- Nothing is spilled while there is room in place.
record IsPacked (b : Buffer) : Type 0 where
  room : length b.inline < max_inline_labels → b.spilled ≡ []

is_empty-snoc : {A : Type 0} (xs : List A) (x : A) → is_empty (xs ++ x ∷ []) ≡ false
is_empty-snoc [] x = refl
is_empty-snoc (y ∷ xs) x = refl

buffered-push_label :
    (l : Text) (b : Buffer)
    → IsPacked b
    → (buffered (push_label l b) ≡ buffered b ++ l ∷ []) × IsPacked (push_label l b)
unfolding push_label buffered
buffered-push_label l b h = elim (Bool-cases (ltb (length b.inline) max_inline_labels)) [
  | inl small ↦
      let none_spilled : b.spilled ≡ [] = h.room (ground arith) in
      rw (small, none_spilled) (refl, record { room = λ _. refl })
  | inr full ↦ rw full (
    rw (is_empty-snoc (if is_empty b.spilled then b.inline else b.spilled) l) refl,
    record { room = λ k. absurd (ground arith) },
  )
]

collect_labels_lem :
    (fuel : ℕ) (rest : Text) (b : Buffer)
    → IsPacked b
    → buffered (collect_labels fuel rest b) ≡ buffered b ++ labels_from fuel rest
unfolding collect_labels labels_from
collect_labels_lem zero rest b h = sym (append-nil (buffered b))
collect_labels_lem (suc fuel) rest b h =
    let (label, new_rest) = last_label rest in
    let (pushed, packed) = buffered-push_label label b h in
    elim (Bool-cases (is_empty label)) [
      | inl e ↦ rw e (sym (append-nil (buffered b)))
      | inr e ↦ rw e (elim (Bool-cases (is_empty new_rest)) [
        | inl last ↦ rw last pushed
        | inr more ↦ rw more (
            collect_labels_lem fuel new_rest (push_label label b) packed
            ∙ ap (λ x. x ++ labels_from fuel new_rest) pushed
            ∙ append_assoc (buffered b) (label ∷ []) (labels_from fuel new_rest))
      ])
    ]

-- The labels that `insert` walks are those that a lookup walks, however many there are.
pub labels_of-eq-right_labels : (domain : Text) → labels_of domain ≡ right_labels domain
unfolding labels_of
labels_of-eq-right_labels domain =
    collect_labels_lem (suc (length domain)) domain (record { inline = []; spilled = [] })
      (record { room = λ _. refl })
    ∙ unfold buffered in refl
