-- ===== src/Base/Slices.antt =====
-- Parts of lists: how `take` and `drop` meet `++` and one another.
use Prim.Native.Nat.{ℕ, zero, suc, ◌+◌, ◌-◌, ◌≤◌, ◌<◌, min}
use mathlib.Core.Path.{◌≡◌, refl, ap, sym, ◌∙◌}
use mathlib.Core.List.{List, [], ◌∷◌, ◌++◌}
use native.Mathlib.Omega.{arith}
use tiramisu.Base.Lists.{length, take, drop}

module _ {ℓ} {A : Type ℓ} where
  pub take-nil : (n : ℕ) → take {A = A} n [] ≡ []
  take-nil zero = refl
  take-nil (suc n) = refl

  pub drop-nil : (n : ℕ) → drop {A = A} n [] ≡ []
  drop-nil zero = refl
  drop-nil (suc n) = refl

  pub take-append :
      (n : ℕ) (xs ys : List A) → take n (xs ++ ys) ≡ take n xs ++ take (n - length xs) ys
  take-append n [] ys = rw (take-nil n) (ap (λ k. take k ys) (omega arith))
  take-append zero (x ∷ xs) ys = let e : 0 - length (x ∷ xs) ≡ 0 = omega arith in rw e refl
  take-append (suc n) (x ∷ xs) ys = ground (arith, take-append n xs ys)

  pub drop-append :
      (n : ℕ) (xs ys : List A) → drop n (xs ++ ys) ≡ drop n xs ++ drop (n - length xs) ys
  drop-append n [] ys = rw (drop-nil n) (ap (λ k. drop k ys) (omega arith))
  drop-append zero (x ∷ xs) ys = let e : 0 - length (x ∷ xs) ≡ 0 = omega arith in rw e refl
  drop-append (suc n) (x ∷ xs) ys = ground (arith, drop-append n xs ys)

  pub take-take : (n m : ℕ) (xs : List A) → take n (take m xs) ≡ take (min n m) xs
  take-take n m [] = rw (take-nil m, take-nil n, take-nil (min n m)) refl
  take-take zero m (x ∷ xs) = let e : min 0 m ≡ 0 = omega arith in rw e refl
  take-take (suc n) zero (x ∷ xs) = let e : min (suc n) 0 ≡ 0 = omega arith in rw e refl
  take-take (suc n) (suc m) (x ∷ xs) =
      let e : min (suc n) (suc m) ≡ suc (min n m) = omega arith in rw (e, take-take n m xs) refl

  pub drop-take : (n m : ℕ) (xs : List A) → drop n (take m xs) ≡ take (m - n) (drop n xs)
  drop-take n m [] = rw (take-nil m, drop-nil n, take-nil (m - n)) refl
  drop-take zero m (x ∷ xs) = ap (λ k. take k (x ∷ xs)) (omega arith)
  drop-take (suc n) zero (x ∷ xs) = let e : 0 - suc n ≡ 0 = omega arith in rw e refl
  drop-take (suc n) (suc m) (x ∷ xs) = ground (arith, drop-take n m xs)

  pub drop-drop : (n m : ℕ) (xs : List A) → drop n (drop m xs) ≡ drop (m + n) xs
  drop-drop n m [] = rw (drop-nil m, drop-nil n, drop-nil (m + n)) refl
  drop-drop n zero (x ∷ xs) = ap (λ k. drop k (x ∷ xs)) (omega arith)
  drop-drop n (suc m) (x ∷ xs) =
      let e : suc m + n ≡ suc (m + n) = omega arith in rw (e, drop-drop n m xs) refl

  pub take-all : (n : ℕ) (xs : List A) → length xs ≤ n → take n xs ≡ xs
  take-all zero [] h = refl
  take-all (suc n) [] h = refl
  take-all zero (x ∷ xs) h = absurd (omega arith)
  take-all (suc n) (x ∷ xs) h = ap (λ l. x ∷ l) (take-all n xs (omega arith))

  pub drop-all : (n : ℕ) (xs : List A) → length xs ≤ n → drop n xs ≡ []
  drop-all n [] h = drop-nil n
  drop-all zero (x ∷ xs) h = absurd (omega arith)
  drop-all (suc n) (x ∷ xs) h = drop-all n xs (omega arith)

  -- Counts that agree up to the length take the same.
  pub take_clip :
      (n m : ℕ) (xs : List A) → min n (length xs) ≡ min m (length xs) → take n xs ≡ take m xs
  take_clip n m xs e =
      ap (take n) (sym (take-all (length xs) xs (omega arith)))
      ∙ take-take n (length xs) xs
      ∙ ap (λ k. take k xs) e
      ∙ sym (take-take m (length xs) xs)
      ∙ ap (take m) (take-all (length xs) xs (omega arith))

  -- Where nothing is taken the place does not matter.
  pub slice_cong :
      (n m i j : ℕ) (xs : List A)
      → n ≡ m
      → (0 < n → i ≡ j)
      → take n (drop i xs) ≡ take m (drop j xs)
  slice_cong zero m i j xs e at = ap (λ k. take k (drop j xs)) e
  slice_cong (suc n) m i j xs e at = rw (at (omega arith)) (ap (λ k. take k (drop j xs)) e)
