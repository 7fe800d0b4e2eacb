-- ===== src/Base/Lists.antt =====
-- Lists measured by native numbers, and tests over all their elements.
use Prim.Native.Nat.{ℕ, suc, ◌+◌}
use mathlib.Core.Path.{◌≡◌}
use mathlib.Core.Bool.{Bool, true, ◌&&◌}
use mathlib.Core.List.{List, [], ◌∷◌, ◌++◌}
use native.Mathlib.Omega.{arith}

module _ {ℓ} {A : Type ℓ} where
  abbrev pub length : List A → ℕ
  length [] = 0
  length (x ∷ xs) = suc (length xs)

  -- `sum(measure(x) for x in xs)`
  abbrev pub sum_of : (A → ℕ) → List A → ℕ
  sum_of measure [] = 0
  sum_of measure (x ∷ xs) = measure x + sum_of measure xs

  -- `all(test(x) for x in xs)`
  abbrev pub all_of : (A → Bool) → List A → Bool
  all_of test [] = true
  all_of test (x ∷ xs) = test x && all_of test xs

  abbrev pub All {κ} : (A → Type κ) → List A → Type κ
  All P [] = Unit
  All P (x ∷ xs) = P x × All P xs

  pub length-append : (xs ys : List A) → length (xs ++ ys) ≡ length xs + length ys
  length-append [] ys = omega arith
  length-append (x ∷ xs) ys = omega (arith, length-append xs ys)

  pub sum_of-append :
      (measure : A → ℕ) (xs ys : List A)
      → sum_of measure (xs ++ ys) ≡ sum_of measure xs + sum_of measure ys
  sum_of-append measure [] ys = omega arith
  sum_of-append measure (x ∷ xs) ys = omega (arith, sum_of-append measure xs ys)

  pub All-append {κ} :
      (Q : A → Type κ) (front back : List A) → All Q front → All Q back → All Q (front ++ back)
  All-append Q [] back none_yet rest = rest
  All-append Q (a ∷ front) back both rest = (both.0, All-append Q front back both.1 rest)

  pub all_of-All :
      (test : A → Bool) (xs : List A) → all_of test xs ≡ true → All (λ x. test x ≡ true) xs
  all_of-All test [] h = tt
  all_of-All test (x ∷ xs) h = (ground arith, all_of-All test xs (ground arith))
