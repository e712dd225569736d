-- ===== src/Prog/Structure/Complete.antt =====
-- The walk of a well-formed condition within its budget adds no issue.
use robocolony.Common.{
  ℕ, zero, suc, ◌+◌, ◌-◌, ◌≤◌, ◌<◌, ◌≡◌, refl, ap, ◌∙◌, leb, ℤ, true, arith, inl, inr,
}
use robocolony.Common.{Option, none, some, Bool-cases}
use robocolony.Prog.Catalogue.{PredicateSpec, lookup_predicate}
use robocolony.Prog.Program.{
  op_pred, op_and, op_or, op_not, op_other, Condition, cond_node, Conditions, no_more, one_more,
  max_cond_depth,
}
use robocolony.Prog.Structure.{Check, spend, enter, check_pred, check_cond, check_all}
use robocolony.Prog.Structure.Sound.{takes, nodes, nodes_all, Fine, FineAll}

module _ (rule : ℕ) where
  -- The walk of a well-formed condition adds no issue, and takes its nodes from the budget.
  pub record Passes (s s' : Check) (b n : ℕ) : Type 0 where
    pub same : s'.out ≡ s.out
    pub left : s'.budget ≡ some (b - n)

  enter-Passes :
      (depth : ℕ) (s : Check) (b n : ℕ) (result : Check)
      → s.budget ≡ some b
      → 1 ≤ n
      → n ≤ b
      → depth < max_cond_depth
      → ((spend s).budget ≡ some (b - 1) → Passes (spend s) result (b - 1) (n - 1))
      → Passes s (enter rule depth s s.budget result) b n
  enter-Passes depth s zero n result e p l d k = absurd (omega arith)
  enter-Passes depth s (suc b) n result e p l d k = elim (Bool-cases (leb max_cond_depth depth)) [
    | inl deep ↦ absurd (ground arith)
    | inr near ↦
        let done = k (rw e (ap some (omega arith))) in
        rw (e, near) (record { same = done.same; left = done.left ∙ ap some (omega (arith, p)) })
  ]

  pred-Passes :
      (o : Option PredicateSpec) (arg : ℤ) (s : Check) (b : ℕ)
      → takes o arg ≡ true
      → s.budget ≡ some b
      → Passes s (check_pred rule o arg s) b 0
  unfolding check_pred
  pred-Passes none arg s b t e = cc
  pred-Passes (some spec) arg s b t e =
      rw (t, check_pred) (record { same = refl; left = e ∙ ap some (omega arith) })

  shifted : {s s' : Check} {b n : ℕ} → Passes s s' b n → Passes s s' b (1 + n - 1)
  shifted p = record { same = p.same; left = p.left ∙ ap some (omega arith) }

  mutual
    unfolding check_cond check_pred nodes Fine

    pub check_cond-Passes :
        (c : Condition) (depth : ℕ) (s : Check) (b : ℕ)
        → s.budget ≡ some b
        → Fine depth c
        → nodes c ≤ b
        → Passes s (check_cond rule c depth s) b (nodes c)
    check_cond-Passes (cond_node op_pred i arg cs) depth s b e f l =
        enter-Passes depth s b 1 _ e (omega arith) l f.0
          (λ q. pred-Passes (lookup_predicate i) arg (spend s) (b - 1) f.1 q)
    check_cond-Passes (cond_node op_and i arg cs) depth s b e f l =
        enter-Passes depth s b _ _ e (omega arith) l f.0 (λ q.
          rw f.1.0
            (shifted (check_all-Passes cs (depth + 1) (spend s) (b - 1) q f.1.1 (omega arith))))
    check_cond-Passes (cond_node op_or i arg cs) depth s b e f l =
        enter-Passes depth s b _ _ e (omega arith) l f.0 (λ q.
          rw f.1.0
            (shifted (check_all-Passes cs (depth + 1) (spend s) (b - 1) q f.1.1 (omega arith))))
    check_cond-Passes (cond_node op_not i arg cs) depth s b e f l =
        enter-Passes depth s b _ _ e (omega arith) l f.0 (λ q.
          rw f.1.0
            (shifted (check_all-Passes cs (depth + 1) (spend s) (b - 1) q f.1.1 (omega arith))))
    check_cond-Passes (cond_node op_other i arg cs) depth s b e f l = absurd f

    check_all-Passes :
        (cs : Conditions) (depth : ℕ) (s : Check) (b : ℕ)
        → s.budget ≡ some b
        → FineAll depth cs
        → nodes_all cs ≤ b
        → Passes s (check_all rule cs depth s) b (nodes_all cs)
    check_all-Passes no_more depth s b e f l = record {
      same = refl;
      left = e ∙ ap some (omega arith);
    }
    check_all-Passes (one_more c cs) depth s b e f l =
        let first = check_cond-Passes c depth s b e f.0 (omega arith) in
        let rest =
          check_all-Passes cs depth (check_cond rule c depth s) (b - nodes c) first.left f.1
            (omega arith) in
        record { same = rest.same ∙ first.same; left = rest.left ∙ ap some (omega arith) }
