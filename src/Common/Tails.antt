-- ===== src/Common/Tails.antt =====
-- The elements of a list from an index on: what a loop with a running index has left.
use Prim.Native.Nat.{ℕ, suc, ◌+◌, ◌<◌}
use mathlib.Core.Path.{◌≡◌, refl, sym, subst}
use mathlib.Core.Logic.{◌⊎◌, inl, inr}
use mathlib.Core.Option.{some}
use mathlib.Core.List.{List, ◌∷◌}
use native.Mathlib.Omega.{arith}
use robocolony.Common.Lists.{get_elem?}

module _ {ℓ} {A : Type ℓ} where
  pub record IsTail (all : List A) (i : ℕ) (xs : List A) : Type ℓ where
    pub reads : (k : ℕ) (a : A) → get_elem? xs k ≡ some a → get_elem? all (i + k) ≡ some a

  pub IsTail-start : (xs : List A) → IsTail xs 0 xs
  IsTail-start xs = record {
    reads = λ k a h. subst (λ n. get_elem? xs n ≡ some a) (let e : k ≡ 0 + k = omega arith in e) h;
  }

  pub IsTail-cons :
      {all xs : List A} {i : ℕ} {x : A} → IsTail all i (x ∷ xs) → IsTail all (suc i) xs
  IsTail-cons {all} {xs} {i} {x} t = record {
    reads = λ k a h.
        subst (λ n. get_elem? all n ≡ some a) (let e : i + suc k ≡ suc i + k = omega arith in e)
          (t.reads (suc k) a h);
  }

  pub IsTail-head :
      {all xs : List A} {i : ℕ} {x : A} → IsTail all i (x ∷ xs) → get_elem? all i ≡ some x
  IsTail-head {all} {xs} {i} {x} t =
      subst (λ n. get_elem? all n ≡ some x) (let e : i + 0 ≡ i = omega arith in e)
        (t.reads 0 x refl)

-- To extend a fact about the elements below an index by one about the element there.
module _ {ℓ κ} {A : Type ℓ} (P : A → Type κ) (all : List A) where
  abbrev pub AllBelow : ℕ → Type (ℓ ⊔ κ)
  AllBelow n = (k : ℕ) (a : A) → k < n → get_elem? all k ≡ some a → P a

  pub AllBelow-suc :
      (i : ℕ) (a : A) → get_elem? all i ≡ some a → P a → AllBelow i → AllBelow (suc i)
  AllBelow-suc i a e p h k b l g = elim (split k l) [
    | inl below ↦ h k b below g
    | inr same ↦ let q : some b ≡ some a = cc in let r : b ≡ a = cc in subst P (sym r) p
  ]
    where
      split : (k : ℕ) → k < suc i → (k < i) ⊎ (k ≡ i)
      split k l = grind arith
