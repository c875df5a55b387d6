-- ===== src/Common/Assoc.antt =====
-- A map as an association list, at a test of the keys. The first entry with a key counts.
use m_host.Common.Tests.{if◌then◌else◌}
use mathlib.Core.Path.{◌≡◌, refl}
use mathlib.Core.Logic.{◌↔◌}
use mathlib.Core.Bool.{Bool, true}
use mathlib.Core.List.{List, [], ◌∷◌}
use mathlib.Core.Option.{Option, none, some}
use native.Mathlib.Omega.{arith}

module _ {K V : Type 0} (same : K → K → Bool) where
  -- `HashMap::get`
  unfoldable pub get : K → List (K × V) → Option V
  get key [] = none
  get key ((k, v) ∷ rest) = let found = get key rest in if same k key then some v else found

  -- `HashMap::insert`
  unfoldable pub put : K → V → List (K × V) → List (K × V)
  put key new [] = (key, new) ∷ []
  put key new ((k, v) ∷ rest) =
      let later = put key new rest in if same k key then (k, new) ∷ rest else (k, v) ∷ later

  -- `HashMap::remove`
  unfoldable pub remove : K → List (K × V) → List (K × V)
  remove key [] = []
  remove key ((k, v) ∷ rest) =
      let later = remove key rest in if same k key then later else (k, v) ∷ later

module _ {K V : Type 0} {same : K → K → Bool}
    (same_iff : (a b : K) → (same a b ≡ true) ↔ (a ≡ b)) where
  pub get-put :
      (key k : K) (v : V) (m : List (K × V))
      → get same key (put same k v m) ≡ (if same k key then some v else get same key m)
  unfolding get put
  get-put key k v [] = refl
  get-put key k v ((j, w) ∷ m) =
      ground (arith, get-put key k v m, same_iff j k, same_iff j key, same_iff k key)

  pub get-remove :
      (key k : K) (m : List (K × V))
      → get same key (remove same k m) ≡ (if same k key then none else get same key m)
  unfolding get remove
  get-remove key k [] = ground arith
  get-remove key k ((j, w) ∷ m) =
      ground (arith, get-remove key k m, same_iff j k, same_iff j key, same_iff k key)
