-- ===== src/Common/Assoc.antt =====
-- Maps as association lists under a Boolean test of keys, with Go's lookup, assignment and `delete`,
-- and the laws of lookup.
use mathlib.Core.Path.{◌≡◌, refl, sym, subst}
use mathlib.Core.Logic.{inl, inr}
use mathlib.Core.Bool.{Bool, true, false}
use mathlib.Core.Option.{Option, none, some}
use mathlib.Core.List.{List, [], ◌∷◌}
use robocolony.Common.Tests.{Bool-cases, if◌then◌else◌}

module _ {ℓ κ} {K : Type ℓ} {V : Type κ} (same : K → K → Bool) where
  unfoldable pub lookup : List (K × V) → K → Option V
  lookup [] k = none
  lookup ((j, v) ∷ m) k = if same j k then some v else lookup m k

  -- The entry of a key is written in place, and a new key comes last.
  unfoldable pub assign : List (K × V) → K → V → List (K × V)
  assign [] k v = (k, v) ∷ []
  assign ((j, u) ∷ m) k v = if same j k then (j, v) ∷ m else (j, u) ∷ assign m k v

  unfoldable pub delete : List (K × V) → K → List (K × V)
  delete [] k = []
  delete ((j, u) ∷ m) k = let rest = delete m k in if same j k then rest else (j, u) ∷ rest

  module _ (sound : (j k : K) → same j k ≡ true → j ≡ k) (self : (k : K) → same k k ≡ true) where
    pub lookup-assign_same : (m : List (K × V)) (k : K) (v : V) → lookup (assign m k v) k ≡ some v
    unfolding lookup assign
    lookup-assign_same [] k v = rw (self k) refl
    lookup-assign_same ((j, u) ∷ m) k v = elim (Bool-cases (same j k)) [
      | inl e ↦ rw (e, e) refl
      | inr e ↦ rw (e, e) (lookup-assign_same m k v)
    ]

    pub lookup-assign_other :
        (m : List (K × V)) (k : K) (v : V) (i : K)
        → same k i ≡ false
        → lookup (assign m k v) i ≡ lookup m i
    unfolding lookup assign
    lookup-assign_other [] k v i h = rw h refl
    lookup-assign_other ((j, u) ∷ m) k v i h = elim (Bool-cases (same j k)) [
      | inl e ↦
          let q : same j i ≡ false = subst (λ x. same x i ≡ false) (sym (sound j k e)) h in
          rw (e, q) refl
      | inr e ↦ elim (Bool-cases (same j i)) [
        | inl d ↦ rw (e, d) refl
        | inr d ↦ rw (e, d) (lookup-assign_other m k v i h)
      ]
    ]

    pub lookup-delete_same : (m : List (K × V)) (k : K) → lookup (delete m k) k ≡ none
    unfolding lookup delete
    lookup-delete_same [] k = refl
    lookup-delete_same ((j, u) ∷ m) k = elim (Bool-cases (same j k)) [
      | inl e ↦ rw e (lookup-delete_same m k)
      | inr e ↦ rw (e, e) (lookup-delete_same m k)
    ]

    pub lookup-delete_other :
        (m : List (K × V)) (k i : K) → same k i ≡ false → lookup (delete m k) i ≡ lookup m i
    unfolding lookup delete
    lookup-delete_other [] k i h = refl
    lookup-delete_other ((j, u) ∷ m) k i h = elim (Bool-cases (same j k)) [
      | inl e ↦
          let q : same j i ≡ false = subst (λ x. same x i ≡ false) (sym (sound j k e)) h in
          rw (e, q) (lookup-delete_other m k i h)
      | inr e ↦ elim (Bool-cases (same j i)) [
        | inl d ↦ rw (e, d) refl
        | inr d ↦ rw (e, d) (lookup-delete_other m k i h)
      ]
    ]
