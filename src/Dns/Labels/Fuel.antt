-- ===== src/Dns/Labels/Fuel.antt =====
-- The fuel of the label walks: each round shortens what is left of the domain.
use m_host.Common.{
  Text, ℕ, zero, suc, ◌<◌, ◌==◌, false, Option, none, some, [], ◌∷◌, if◌then◌else◌, is_empty,
  length, rsplit_once, ◌≡◌, refl, ap, sym, ◌∙◌, arith, Bool-cases, inl, inr,
}
use m_host.Dns.Labels.Storage.{labels_of-eq-right_labels}
use m_host.Dns.Labels.{last_label, labels_of, labels_from, right_labels}

-- The part in front of the last dot is shorter than the text.
FrontFits : ℕ → Option (Text × Text) → Type 0
FrontFits n none = Unit
FrontFits n (some (a, b)) = length a < n

rsplit_once_shorter : (c : ℕ) (s : Text) → FrontFits (length s) (rsplit_once c s)
unfolding rsplit_once FrontFits
rsplit_once_shorter c [] = tt
rsplit_once_shorter c (x ∷ s) = step (rsplit_once c s) (rsplit_once_shorter c s)
  where
    step :
        (o : Option (Text × Text))
        → FrontFits (length s) o
        → FrontFits (length (x ∷ s)) (elim o [
          | some (a, b) ↦ some (x ∷ a, b)
          | none ↦ if x == c then some ([], s) else none
        ])
    step (some (a, b)) h = omega (arith, h)
    step none h = elim (Bool-cases (x == c)) [
      | inl same ↦ rw same (omega arith)
      | inr other ↦ rw other tt
    ]

abbrev split_of : Text → Option (Text × Text) → Text × Text
split_of s o = elim o [ some (front, label) ↦ (label, front) | none ↦ (s, []) ]

has_length : (s : Text) → is_empty s ≡ false → 0 < length s
has_length [] h = absurd (cc)
has_length (x ∷ s) h = omega arith

last_label_shorter :
    (s : Text) → is_empty (last_label s).0 ≡ false → length (last_label s).1 < length s
unfolding last_label FrontFits
last_label_shorter s h = step (rsplit_once b'.' s) (rsplit_once_shorter b'.' s) h
  where
    step :
        (o : Option (Text × Text))
        → FrontFits (length s) o
        → is_empty (split_of s o).0 ≡ false
        → length (split_of s o).1 < length s
    step (some (a, b)) fits k = fits
    step none fits k = has_length s k

labels_from-steps :
    (n m : ℕ) (rest : Text)
    → length rest < n
    → length rest < m
    → labels_from n rest ≡ labels_from m rest
unfolding labels_from
labels_from-steps zero m rest h k = absurd (omega (arith, h))
labels_from-steps (suc n) zero rest h k = absurd (omega (arith, k))
labels_from-steps (suc n) (suc m) rest h k =
    let (label, new_rest) = last_label rest in
    elim (Bool-cases (is_empty label)) [
      | inl done ↦ rw done refl
      | inr more ↦
          let shorter = last_label_shorter rest more in
          rw
            (
              more,
              labels_from-steps n m new_rest (omega (arith, h, shorter))
                  (omega (arith, k, shorter)),
            )
            refl
    ]

-- Any two amounts of fuel above the length of what is left of a domain give the same labels, those
-- of the whole domain among them.
pub labels_from-right_labels :
    (fuel : ℕ) (rest : Text) → length rest < fuel → labels_from fuel rest ≡ right_labels rest
labels_from-right_labels fuel rest h =
    labels_from-steps fuel (suc (length rest)) rest h (omega arith)

labels_of_rest :
    (fuel : ℕ) (rest : Text)
    → length rest < fuel
    → (if is_empty rest then [] else labels_from fuel rest) ≡ right_labels rest
labels_of_rest fuel [] h = unfold labels_from last_label rsplit_once in refl
labels_of_rest fuel (x ∷ rest) h = labels_from-right_labels fuel (x ∷ rest) h

right_labels-unfolds :
    (domain : Text)
    → is_empty (last_label domain).0 ≡ false
    → right_labels domain ≡ (last_label domain).0 ∷ right_labels (last_label domain).1
unfolding labels_from
right_labels-unfolds domain h =
    let (label, rest) = last_label domain in
    rw h (ap (λ ls. label ∷ ls) (labels_of_rest (length domain) rest (last_label_shorter domain h)))

-- If a domain is not empty and does not end in a dot, the labels that an insertion collects are the
-- last label and then the labels of what stands in front of its dot, with no bound on their number.
pub labels_of-unfolds :
    (domain : Text)
    → is_empty (last_label domain).0 ≡ false
    → labels_of domain ≡ (last_label domain).0 ∷ labels_of (last_label domain).1
labels_of-unfolds domain h =
    let (label, rest) = last_label domain in
    labels_of-eq-right_labels domain
    ∙ right_labels-unfolds domain h
    ∙ ap (λ ls. label ∷ ls) (sym (labels_of-eq-right_labels rest))
