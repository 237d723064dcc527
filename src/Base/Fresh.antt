-- ===== src/Base/Fresh.antt =====
-- The loop that records keys in a map and stops at one that is there already.
use tiramisu.Base.Eq.{Eq, =?_iff}
use tiramisu.Base.GoMap.{Map, lookup, insert, lookup-insert}
use tiramisu.Base.Distinct.{Without, Distinct}
use mathlib.Core.Path.{◌≡◌, refl, subst}
use mathlib.Core.Logic.{◌≢◌}
use mathlib.Core.Bool.{Bool, true}
use mathlib.Core.List.{List, [], ◌∷◌}
use mathlib.Core.Option.{none, some}
use native.Mathlib.Omega.{arith}

module _ {K : Type 0} ⦃e : Eq K⦄ where
  abbrev pub itself : K → K
  itself k = k

  -- No key of the list is in the map or came before.
  abbrev pub Fresh : Map K Bool → List K → Type 0
  Fresh seen [] = Unit
  Fresh seen (k ∷ ks) = (lookup k seen ≡ none) × Fresh (insert k true seen) ks

  abbrev pub Unseen : Map K Bool → List K → Type 0
  Unseen seen [] = Unit
  Unseen seen (k ∷ ks) = (lookup k seen ≡ none) × Unseen seen ks

  Fresh-Without :
      (k : K) (b : Bool) (seen : Map K Bool) (ks : List K)
      → lookup k seen ≡ some b
      → Fresh seen ks
      → Without itself k ks
  Fresh-Without k b seen [] at f = tt
  Fresh-Without k b seen (j ∷ ks) at f =
      let new : j ≢ k = λ q. absurd (cc (subst (λ i. lookup i seen ≡ none) q f.0, at)) in
      let still : lookup k (insert j true seen) ≡ some b =
        ground (arith, lookup-insert j k true seen, =?_iff j k, at, new) in
      (new, Fresh-Without k b (insert j true seen) ks still f.1)

  pub Fresh-Distinct : (seen : Map K Bool) (ks : List K) → Fresh seen ks → Distinct itself ks
  Fresh-Distinct seen [] f = tt
  Fresh-Distinct seen (k ∷ ks) f =
      let at : lookup k (insert k true seen) ≡ some true =
        ground (arith, lookup-insert k k true seen, =?_iff k k) in
      (
        Fresh-Without k true (insert k true seen) ks at f.1,
        Fresh-Distinct (insert k true seen) ks f.1,
      )

  Unseen-insert :
      (k : K) (seen : Map K Bool) (ks : List K)
      → Without itself k ks
      → Unseen seen ks
      → Unseen (insert k true seen) ks
  Unseen-insert k seen [] w u = tt
  Unseen-insert k seen (j ∷ ks) w u =
      (ground (arith, lookup-insert k j true seen, =?_iff k j), Unseen-insert k seen ks w.1 u.1)

  pub Distinct-Fresh :
      (seen : Map K Bool) (ks : List K) → Distinct itself ks → Unseen seen ks → Fresh seen ks
  Distinct-Fresh seen [] d u = tt
  Distinct-Fresh seen (k ∷ ks) d u =
      (u.0, Distinct-Fresh (insert k true seen) ks d.1 (Unseen-insert k seen ks d.0 u.1))

  pub Unseen-nil : (ks : List K) → Unseen [] ks
  unfolding lookup
  Unseen-nil [] = tt
  Unseen-nil (k ∷ ks) = (refl, Unseen-nil ks)
