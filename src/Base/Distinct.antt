-- ===== src/Base/Distinct.antt =====
-- Lists in which no two elements have the same key.
use mathlib.Core.Path.{◌≡◌}
use mathlib.Core.Logic.{◌≢◌, ◌⊎◌}
use mathlib.Core.List.{List, [], ◌∷◌}

module _ {ℓ κ} {A : Type ℓ} {K : Type κ} (key : A → K) where
  -- No element has the key; no two elements have the same.
  abbrev pub Without : K → List A → Type κ
  Without k [] = Unit
  Without k (x ∷ xs) = (key x ≢ k) × Without k xs

  abbrev pub Distinct : List A → Type κ
  Distinct [] = Unit
  Distinct (x ∷ xs) = Without (key x) xs × Distinct xs

module _ {A K : Type 0} (key : A → K) where
  -- The key stands in the list once, at the element.
  abbrev pub Only : K → A → List A → Type 0
  Only k a [] = ⊥
  Only k a (x ∷ xs) = ((x ≡ a) × (key x ≡ k) × Without key k xs) ⊎ ((key x ≢ k) × Only k a xs)
