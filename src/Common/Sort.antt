-- ===== src/Common/Sort.antt =====
-- `slices.SortFunc` of Go's standard library, by insertion: its result is ordered by the
-- comparison, and is fixed by that up to the order of elements that compare equal.
use mathlib.Core.Path.{◌≡◌}
use mathlib.Core.Logic.{inl, inr}
use mathlib.Core.List.{List, [], ◌∷◌, Perm}
use mathlib.Core.List.Perm
use mathlib.Core.Bool.{Bool, true, false}
use robocolony.Common.Tests.{if◌then◌else◌, Bool-cases}
use robocolony.Common.Lists.{All}

module _ {ℓ} {A : Type ℓ} where
  pub insert : (A → A → Bool) → A → List A → List A
  insert le x [] = x ∷ []
  insert le x (y ∷ ys) = if le x y then x ∷ y ∷ ys else y ∷ insert le x ys

  -- `le a b` says that the comparison of `a` with `b` is at most zero.
  unfoldable pub sort_by : (A → A → Bool) → List A → List A
  unfolding insert
  sort_by le [] = []
  sort_by le (x ∷ xs) = insert le x (sort_by le xs)

  -- Each element is at most every later one.
  abbrev pub IsSorted : (A → A → Bool) → List A → Type ℓ
  IsSorted le [] = Unit
  IsSorted le (x ∷ xs) = All (λ y. le x y ≡ true) xs × IsSorted le xs

  -- The same for any relation.
  abbrev pub IsOrdered {κ} : (A → A → Type κ) → List A → Type (ℓ ⊔ κ)
  IsOrdered Le [] = Unit
  IsOrdered Le (x ∷ xs) = All (λ y. Le x y) xs × IsOrdered Le xs

  pub insert-perm : (le : A → A → Bool) (x : A) (xs : List A) → Perm (insert le x xs) (x ∷ xs)
  unfolding insert
  insert-perm le x [] = Perm.refl (x ∷ [])
  insert-perm le x (y ∷ ys) = elim (Bool-cases (le x y)) [
    | inl e ↦ rw e (Perm.refl (x ∷ y ∷ ys))
    | inr e ↦ rw e (Perm.trans (Perm.cons y (insert-perm le x ys)) (Perm.swap x y ys))
  ]

  pub sort_by-perm : (le : A → A → Bool) (xs : List A) → Perm (sort_by le xs) xs
  unfolding sort_by
  sort_by-perm le [] = Perm.refl []
  sort_by-perm le (x ∷ xs) =
      Perm.trans (insert-perm le x (sort_by le xs)) (Perm.cons x (sort_by-perm le xs))

  pub All-insert {κ} :
      (P : A → Type κ) (le : A → A → Bool) (x : A) (xs : List A)
      → P x
      → All P xs
      → All P (insert le x xs)
  unfolding insert
  All-insert P le x [] p h = (p, tt)
  All-insert P le x (y ∷ ys) p h = elim (Bool-cases (le x y)) [
    | inl e ↦ rw e (p, h)
    | inr e ↦ rw e (h.0, All-insert P le x ys p h.1)
  ]

  pub All-sort_by {κ} :
      (P : A → Type κ) (le : A → A → Bool) (xs : List A) → All P xs → All P (sort_by le xs)
  unfolding sort_by
  All-sort_by P le [] h = h
  All-sort_by P le (x ∷ xs) h = All-insert P le x (sort_by le xs) h.0 (All-sort_by P le xs h.1)

  module _ (le : A → A → Bool) (total : (a b : A) → le a b ≡ false → le b a ≡ true)
      (trans : (a b c : A) → le a b ≡ true → le b c ≡ true → le a c ≡ true) where
    All-le_trans :
        (x y : A) (ys : List A)
        → le x y ≡ true
        → All (λ z. le y z ≡ true) ys
        → All (λ z. le x z ≡ true) ys
    All-le_trans x y [] h hs = tt
    All-le_trans x y (z ∷ zs) h hs = (trans x y z h hs.0, All-le_trans x y zs h hs.1)

    insert-IsSorted : (x : A) (xs : List A) → IsSorted le xs → IsSorted le (insert le x xs)
    unfolding insert
    insert-IsSorted x [] s = (tt, tt)
    insert-IsSorted x (y ∷ ys) s = elim (Bool-cases (le x y)) [
      | inl e ↦ rw e ((e, All-le_trans x y ys e s.0), s)
      | inr e ↦
          rw e (All-insert (λ z. le y z ≡ true) le x ys (total x y e) s.0, insert-IsSorted x ys s.1)
    ]

    pub sort_by-IsSorted : (xs : List A) → IsSorted le (sort_by le xs)
    unfolding sort_by
    sort_by-IsSorted [] = tt
    sort_by-IsSorted (x ∷ xs) = insert-IsSorted x (sort_by le xs) (sort_by-IsSorted xs)

module _ {ℓ κ} {A : Type ℓ} (le : A → A → Bool) (Le : A → A → Type κ)
    (sound : (a b : A) → le a b ≡ true → Le a b) where
  All-sound : (x : A) (ys : List A) → All (λ y. le x y ≡ true) ys → All (λ y. Le x y) ys
  All-sound x [] h = tt
  All-sound x (y ∷ ys) h = (sound x y h.0, All-sound x ys h.1)

  -- A list that a test sorts is ordered by every relation that the test decides soundly.
  pub IsSorted-IsOrdered : (xs : List A) → IsSorted le xs → IsOrdered Le xs
  IsSorted-IsOrdered [] s = tt
  IsSorted-IsOrdered (x ∷ xs) s = (All-sound x xs s.0, IsSorted-IsOrdered xs s.1)
