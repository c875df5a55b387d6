-- ===== src/Common/Sort.antt =====
-- The stable sort of a slice by an order given as a test, and sorted sets of texts.
use m_host.Common.Tests.{if◌then◌else◌}
use m_host.Common.Lists.{any}
use m_host.Common.Chars.{Text, eqb, text_leb}
use mathlib.Core.Path.{◌≡◌, refl}
use mathlib.Core.Bool.{Bool, ◌||◌}
use mathlib.Core.List.{List, [], ◌∷◌}
use native.Mathlib.Omega.{arith}

module _ {A : Type 0} where
  unfoldable pub insert_by : (A → A → Bool) → A → List A → List A
  insert_by le x [] = x ∷ []
  insert_by le x (y ∷ ys) = if le x y then x ∷ y ∷ ys else y ∷ insert_by le x ys

  -- `xs.sort_by(…)`: equal elements keep their order
  unfoldable pub sort_by : (A → A → Bool) → List A → List A
  unfolding insert_by
  sort_by le [] = []
  sort_by le (x ∷ xs) = insert_by le x (sort_by le xs)

  pub any-insert_by :
      (le : A → A → Bool) (p : A → Bool) (x : A) (ys : List A)
      → any p (insert_by le x ys) ≡ (p x || any p ys)
  unfolding insert_by
  any-insert_by le p x [] = refl
  any-insert_by le p x (y ∷ ys) = ground (arith, any-insert_by le p x ys)

  pub any-sort_by :
      (le : A → A → Bool) (p : A → Bool) (xs : List A) → any p (sort_by le xs) ≡ any p xs
  unfolding sort_by
  any-sort_by le p [] = refl
  any-sort_by le p (x ∷ xs) =
      unfold sort_by in ground (arith, any-insert_by le p x (sort_by le xs), any-sort_by le p xs)

-- Insertion into a `BTreeSet<&str>`, which is the ascending list of its elements.
unfoldable pub insert_text : Text → List Text → List Text
insert_text t [] = t ∷ []
insert_text t (u ∷ us) =
    if eqb t u then u ∷ us else if text_leb t u then t ∷ u ∷ us else u ∷ insert_text t us

unfoldable pub text_set : List Text → List Text
unfolding insert_text
text_set [] = []
text_set (t ∷ ts) = insert_text t (text_set ts)

abbrev pub mem_text : Text → List Text → Bool
mem_text t = any (λ u. eqb u t)
