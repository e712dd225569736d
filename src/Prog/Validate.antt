-- ===== src/Prog/Validate.antt =====
-- Which rules can never run: `warnDominated` and its helpers of internal/prog/validate.go. A
-- warning is the pair of the two indices that its text names.
pub mod Dominance
pub mod Unreachable
use robocolony.Common.{
  ℕ, zero, suc, ◌+◌, leb, ℤ, eqb_ℤ, Bool, true, false, ◌&&◌, ◌||◌, if◌then◌else◌, String,
}
use robocolony.Common.{List, [], ◌∷◌, ◌++◌, Option, none, some}
use robocolony.Prog.Catalogue.{eq_string}
use robocolony.Prog.Program.{
  CondOp, op_pred, op_and, op_or, op_not, op_other, Condition, cond_node, Conditions, no_more,
  one_more, max_cond_depth, Action, Rule, is_primary,
}

-- The key of a predicate, before the source joins it to a string: the text of a number has no colon.
pub record Key : Type 0 where
  pub id : String
  pub arg : ℤ

abbrev pub eq_key : Key → Key → Bool
eq_key a b = eq_string a.id b.id && eqb_ℤ a.arg b.arg

unfoldable pub any_primary : List Action → Bool
any_primary [] = false
any_primary (a ∷ rest) = is_primary a || any_primary rest

abbrev pub has_primary : Rule → Bool
has_primary r = any_primary r.then_do

abbrev pub has_key : Key → List Key → Bool
has_key k [] = false
has_key k (x ∷ xs) = eq_key x k || has_key k xs

unfoldable pub subset : List Key → List Key → Bool
subset [] have = true
subset (k ∷ ks) have = has_key k have && subset ks have

-- No keys at all is not a conjunction.
abbrev pub nonempty : Option (List Key) → Option (List Key)
nonempty none = none
nonempty (some []) = none
nonempty (some (k ∷ ks)) = some (k ∷ ks)

abbrev pub join : Option (List Key) → Option (List Key) → Option (List Key)
join none ys = none
join (some xs) none = none
join (some xs) (some ys) = some (xs ++ ys)

-- A branch that is too deep has no keys.
abbrev pub shallow : ℕ → Option (List Key) → Option (List Key)
shallow depth keys = if leb max_cond_depth depth then none else keys

-- `conjuncts`: `none` is the result that is not ok.
unfoldable mutual
  pub conjuncts : Condition → ℕ → Option (List Key)
  conjuncts (cond_node op_pred i arg cs) depth =
      shallow depth (some (record { id = i; arg = arg } ∷ []))
  conjuncts (cond_node op_and i arg cs) depth =
      shallow depth (nonempty (conjuncts_all cs (depth + 1)))
  conjuncts (cond_node op_or i arg cs) depth = none
  conjuncts (cond_node op_not i arg cs) depth = none
  conjuncts (cond_node op_other i arg cs) depth = none

  pub conjuncts_all : Conditions → ℕ → Option (List Key)
  conjuncts_all no_more depth = some []
  conjuncts_all (one_more c cs) depth = join (conjuncts c depth) (conjuncts_all cs depth)

-- `keys[i]`, with `none` for nil.
unfoldable pub keys_of : Rule → Option (List Key)
keys_of r = if has_primary r then conjuncts r.when 0 else none

abbrev pub covered : Option (List Key) → List Key → Bool
covered none have = false
covered (some ks) have = subset ks have

-- The inner loop: the first rule that covers the keys, among the next `k` from index `i` on.
unfoldable pub first_dominator : ℕ → ℕ → List Rule → List Key → Option ℕ
first_dominator zero i rs have = none
first_dominator (suc k) i [] have = none
first_dominator (suc k) i (r ∷ rs) have =
    let rest = first_dominator k (suc i) rs have in
    if covered (keys_of r) have then some i else rest

unfoldable pub dominator : List Rule → ℕ → Option (List Key) → Option ℕ
dominator all j none = none
dominator all j (some have) = first_dominator j 0 all have

abbrev pub report : ℕ → Option ℕ → List (ℕ × ℕ) → List (ℕ × ℕ)
report j none rest = rest
report j (some i) rest = (j, i) ∷ rest

-- The outer loop. The rule with index 0 has none before it.
unfoldable pub dominated_from : List Rule → ℕ → List Rule → List (ℕ × ℕ)
dominated_from all j [] = []
dominated_from all j (r ∷ rs) =
    report j (dominator all j (conjuncts r.when 0)) (dominated_from all (suc j) rs)

unfoldable pub warn_dominated : List Rule → List (ℕ × ℕ)
warn_dominated rules = dominated_from rules 0 rules
