-- ===== src/Common/Sums.antt =====
-- Sums over lists, under the list operations of the model.
use Prim.Native.Nat.{ℕ, zero, suc, ◌+◌}
use mathlib.Core.Path.{◌≡◌, refl}
use mathlib.Core.Option.{some, some-injective}
use mathlib.Core.List.{List, [], ◌∷◌, ◌++◌}
use native.Mathlib.Omega.{arith}
use robocolony.Common.Lists.{sum_of, set, modify, get_elem?, remove_at}

module _ {ℓ} {A : Type ℓ} (f : A → ℕ) where
  pub sum_of-append : (xs ys : List A) → sum_of f (xs ++ ys) ≡ sum_of f xs + sum_of f ys
  sum_of-append [] ys = omega arith
  sum_of-append (x ∷ xs) ys = omega (arith, sum_of-append xs ys)

  pub sum_of-set :
      (xs : List A) (i : ℕ) (a v : A)
      → get_elem? xs i ≡ some a
      → sum_of f (set xs i v) + f a ≡ sum_of f xs + f v
  sum_of-set [] i a v e = cc
  sum_of-set (x ∷ xs) zero a v e = ground (arith, some-injective e)
  sum_of-set (x ∷ xs) (suc i) a v e = omega (arith, sum_of-set xs i a v e)

  pub sum_of-remove_at :
      (xs : List A) (i : ℕ) (a : A)
      → get_elem? xs i ≡ some a
      → sum_of f (remove_at xs i) + f a ≡ sum_of f xs
  sum_of-remove_at [] i a e = cc
  sum_of-remove_at (x ∷ xs) zero a e = ground (arith, some-injective e)
  sum_of-remove_at (x ∷ xs) (suc i) a e = omega (arith, sum_of-remove_at xs i a e)

  -- A change of one element that keeps its term keeps the sum.
  pub sum_of-modify_same :
      (g : A → A)
      → ((a : A) → f (g a) ≡ f a)
      → (xs : List A) (i : ℕ) → sum_of f (modify xs i g) ≡ sum_of f xs
  sum_of-modify_same g same [] i = refl
  sum_of-modify_same g same (x ∷ xs) zero = omega (arith, same x)
  sum_of-modify_same g same (x ∷ xs) (suc i) = omega (arith, sum_of-modify_same g same xs i)

  pub sum_of-modify :
      (g : A → A) (xs : List A) (i : ℕ) (a : A)
      → get_elem? xs i ≡ some a
      → sum_of f (modify xs i g) + f a ≡ sum_of f xs + f (g a)
  sum_of-modify g [] i a e = cc
  sum_of-modify g (x ∷ xs) zero a e = ground (arith, some-injective e)
  sum_of-modify g (x ∷ xs) (suc i) a e = omega (arith, sum_of-modify g xs i a e)
