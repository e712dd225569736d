-- ===== src/Prog/Structure/Sound.antt =====
-- A condition whose walk adds no issue is well formed and within its budget.
use robocolony.Common.{
  ℕ, zero, suc, ◌+◌, ◌-◌, ◌≤◌, ◌<◌, ◌≡◌, refl, ap, ◌∙◌, leb, ℤ, Bool, true, false, arith, inl, inr,
  if◌then◌else◌,
}
use robocolony.Common.{[], ◌∷◌, Option, none, some, length, length-append, Bool-cases}
use robocolony.Prog.Catalogue.{PredicateSpec, lookup_predicate}
use robocolony.Prog.Program.{
  op_pred, op_and, op_or, op_not, op_other, Condition, cond_node, Conditions, no_more, one_more,
  max_cond_depth,
}
use robocolony.Prog.Matcher.{is_empty}
use robocolony.Prog.Structure.{
  Check, fits, add_issue, IssueCode, bad_not, empty_group, unknown_op, too_large, too_deep,
  unknown_predicate, bad_argument, spend, enter, check_pred, is_single, check_cond, check_all,
}

-- The predicate is in the catalogue and takes the argument.
abbrev pub takes : Option PredicateSpec → ℤ → Bool
takes none arg = false
takes (some spec) arg = fits spec.arg arg

-- How many nodes the walk of a condition visits: the operands of a leaf are not read.
unfoldable mutual
  pub nodes : Condition → ℕ
  nodes (cond_node op_pred i arg cs) = 1
  nodes (cond_node op_and i arg cs) = 1 + nodes_all cs
  nodes (cond_node op_or i arg cs) = 1 + nodes_all cs
  nodes (cond_node op_not i arg cs) = 1 + nodes_all cs
  nodes (cond_node op_other i arg cs) = 1

  pub nodes_all : Conditions → ℕ
  nodes_all no_more = 0
  nodes_all (one_more c cs) = nodes c + nodes_all cs

-- A condition that stands `depth` levels deep is well formed and nowhere too deep.
unfoldable mutual
  pub Fine : ℕ → Condition → Type 0
  Fine depth (cond_node op_pred i arg cs) =
      (depth < max_cond_depth) × (takes (lookup_predicate i) arg ≡ true)
  Fine depth (cond_node op_and i arg cs) =
      (depth < max_cond_depth) × ((is_empty cs ≡ false) × FineAll (depth + 1) cs)
  Fine depth (cond_node op_or i arg cs) =
      (depth < max_cond_depth) × ((is_empty cs ≡ false) × FineAll (depth + 1) cs)
  Fine depth (cond_node op_not i arg cs) =
      (depth < max_cond_depth) × ((is_single cs ≡ true) × FineAll (depth + 1) cs)
  Fine depth (cond_node op_other i arg cs) = ⊥

  pub FineAll : ℕ → Conditions → Type 0
  FineAll depth no_more = Unit
  FineAll depth (one_more c cs) = Fine depth c × FineAll depth cs

module _ (rule : ℕ) where
  longer : (code : IssueCode) (s : Check) → length (add_issue rule code s).out ≡ length s.out + 1
  longer code s = omega (arith, length-append s.out (record { code = code; rule = some rule } ∷ []))

  enter-grows :
      (depth : ℕ) (s : Check) (b : Option ℕ) (result : Check)
      → length s.out ≤ length result.out
      → length s.out ≤ length (enter rule depth s b result).out
  enter-grows depth s none result h = omega arith
  enter-grows depth s (some zero) result h = omega (arith, longer too_large s)
  enter-grows depth s (some (suc b)) result h = elim (Bool-cases (leb max_cond_depth depth)) [
    | inl deep ↦ rw deep (omega (arith, longer too_deep s))
    | inr near ↦ rw near h
  ]

  check_pred-grows :
      (o : Option PredicateSpec) (arg : ℤ) (s : Check)
      → length s.out ≤ length (check_pred rule o arg s).out
  unfolding check_pred
  check_pred-grows none arg s = omega (arith, longer unknown_predicate s)
  check_pred-grows (some spec) arg s = elim (Bool-cases (fits spec.arg arg)) [
    | inl e ↦ rw (e, check_pred) (omega arith)
    | inr e ↦ rw (e, check_pred) (omega (arith, longer bad_argument s))
  ]

  flag-grows :
      (single : Bool) (s : Check) (walk : Check → Check)
      → ((t : Check) → length t.out ≤ length (walk t).out)
      → length s.out
        ≤ length (walk (if single then spend s else add_issue rule bad_not (spend s))).out
  flag-grows true s walk h = h (spend s)
  flag-grows false s walk h =
      omega (arith, longer bad_not (spend s), h (add_issue rule bad_not (spend s)))

  pick-grows :
      (empty : Bool) (s t : Check)
      → length s.out ≤ length t.out
      → length s.out ≤ length (if empty then add_issue rule empty_group (spend s) else t).out
  pick-grows true s t h = omega (arith, longer empty_group (spend s))
  pick-grows false s t h = h

  -- The walk only ever adds issues.
  mutual
    unfolding check_cond

    check_cond-grows :
        (c : Condition) (depth : ℕ) (s : Check)
        → length s.out ≤ length (check_cond rule c depth s).out
    check_cond-grows (cond_node op_pred i arg cs) depth s =
        enter-grows depth s s.budget _ (check_pred-grows (lookup_predicate i) arg (spend s))
    check_cond-grows (cond_node op_and i arg cs) depth s =
        enter-grows depth s s.budget _
          (pick-grows (is_empty cs) s _ (check_all-grows cs (depth + 1) (spend s)))
    check_cond-grows (cond_node op_or i arg cs) depth s =
        enter-grows depth s s.budget _
          (pick-grows (is_empty cs) s _ (check_all-grows cs (depth + 1) (spend s)))
    check_cond-grows (cond_node op_not i arg cs) depth s = enter-grows depth s s.budget _ (
        flag-grows (is_single cs) s (check_all rule cs (depth + 1))
          (check_all-grows cs (depth + 1)))
    check_cond-grows (cond_node op_other i arg cs) depth s =
        enter-grows depth s s.budget _ (omega (arith, longer unknown_op (spend s)))

    check_all-grows :
        (cs : Conditions) (depth : ℕ) (s : Check)
        → length s.out ≤ length (check_all rule cs depth s).out
    check_all-grows no_more depth s = omega arith
    check_all-grows (one_more c cs) depth s =
        omega
          (arith, check_cond-grows c depth s, check_all-grows cs depth (check_cond rule c depth s))

  -- What a walk that adds no issue has seen: well-formed conditions that the budget covers.
  pub record Clean (P : Type 0) (n b : ℕ) (s' : Check) : Type 0 where
    pub fine : P
    pub covered : n ≤ b
    pub left : s'.budget ≡ some (b - n)

  enter-Clean :
      {P : Type 0} {n : ℕ} (depth : ℕ) (s : Check) (b : ℕ) (result : Check)
      → s.budget ≡ some b
      → length (enter rule depth s s.budget result).out ≡ length s.out
      → ((b' : ℕ)
          → b ≡ suc b'
          → depth < max_cond_depth
          → (spend s).budget ≡ some b'
          → length result.out ≡ length s.out
          → Clean P n b result)
      → Clean P n b (enter rule depth s s.budget result)
  enter-Clean depth s zero result e h k = absurd (
      omega
        (arith, longer too_large (spend s), ap (λ z. length (enter rule depth s z result).out) e))
  enter-Clean depth s (suc b) result e h k = elim (Bool-cases (leb max_cond_depth depth)) [
    | inl deep ↦ absurd (omega (arith, longer too_deep (spend s), rw (e, deep) at h))
    | inr near ↦ rw (e, near) (k b refl (ground arith) (rw e refl) (rw (e, near) at h))
  ]

  pick-Clean :
      {P : Type 0} (empty : Bool) (s t : Check) {n b b' : ℕ}
      → b ≡ suc b'
      → length (if empty then add_issue rule empty_group (spend s) else t).out ≡ length s.out
      → (length t.out ≡ length s.out → Clean P n b' t)
      → Clean
          ((empty ≡ false) × P)
          (1 + n)
          b
          (if empty then add_issue rule empty_group (spend s) else t)
  pick-Clean true s t e h k = absurd (omega (arith, longer empty_group (spend s), h))
  pick-Clean false s t e h k =
      let c = k h in
      record {
        fine = (refl, c.fine);
        covered = omega (arith, e, c.covered);
        left = c.left ∙ ap some (omega (arith, e));
      }

  flag-Clean :
      {P : Type 0} (single : Bool) (s : Check) (walk : Check → Check) {n b b' : ℕ}
      → b ≡ suc b'
      → ((t : Check) → length t.out ≤ length (walk t).out)
      → length (walk (if single then spend s else add_issue rule bad_not (spend s))).out
        ≡ length s.out
      → (length (walk (spend s)).out ≡ length s.out → Clean P n b' (walk (spend s)))
      → Clean
          ((single ≡ true) × P)
          (1 + n)
          b
          (walk (if single then spend s else add_issue rule bad_not (spend s)))
  flag-Clean true s walk e g h k =
      let c = k h in
      record {
        fine = (refl, c.fine);
        covered = omega (arith, e, c.covered);
        left = c.left ∙ ap some (omega (arith, e));
      }
  flag-Clean false s walk e g h k =
      absurd (omega (arith, longer bad_not (spend s), g (add_issue rule bad_not (spend s)), h))

  check_pred-Clean :
      (o : Option PredicateSpec) (arg : ℤ) (s : Check) {b b' : ℕ}
      → b ≡ suc b'
      → s.budget ≡ some b'
      → length (check_pred rule o arg s).out ≡ length s.out
      → Clean (takes o arg ≡ true) 1 b (check_pred rule o arg s)
  unfolding check_pred
  check_pred-Clean none arg s e l h = absurd (omega (arith, longer unknown_predicate s, h))
  check_pred-Clean (some spec) arg s e l h = elim (Bool-cases (fits spec.arg arg)) [
    | inl f ↦
        rw (f, check_pred)
          (record {
            fine = refl;
            covered = omega (arith, e);
            left = l ∙ ap some (omega (arith, e));
          })
    | inr f ↦ absurd (omega (arith, longer bad_argument s, rw (f, check_pred) at h))
  ]

  near-Clean : {P Q : Type 0} {n b : ℕ} {s : Check} → Q → Clean P n b s → Clean (Q × P) n b s
  near-Clean q c = record { fine = (q, c.fine); covered = c.covered; left = c.left }

  mutual
    unfolding check_cond nodes Fine

    pub check_cond-Clean :
        (c : Condition) (depth : ℕ) (s : Check) (b : ℕ)
        → s.budget ≡ some b
        → length (check_cond rule c depth s).out ≡ length s.out
        → Clean (Fine depth c) (nodes c) b (check_cond rule c depth s)
    check_cond-Clean (cond_node op_pred i arg cs) depth s b e h =
        enter-Clean depth s b _ e h
          (λ b' q d l h'. near-Clean d (check_pred-Clean (lookup_predicate i) arg (spend s) q l h'))
    check_cond-Clean (cond_node op_and i arg cs) depth s b e h =
        enter-Clean depth s b _ e h (λ b' q d l h'.
          near-Clean d
            (pick-Clean (is_empty cs) s _ q h' (check_all-Clean cs (depth + 1) (spend s) b' l)))
    check_cond-Clean (cond_node op_or i arg cs) depth s b e h =
        enter-Clean depth s b _ e h (λ b' q d l h'.
          near-Clean d
            (pick-Clean (is_empty cs) s _ q h' (check_all-Clean cs (depth + 1) (spend s) b' l)))
    check_cond-Clean (cond_node op_not i arg cs) depth s b e h =
        enter-Clean depth s b _ e h (λ b' q d l h'. near-Clean d (
          flag-Clean (is_single cs) s (check_all rule cs (depth + 1)) q
            (check_all-grows cs (depth + 1)) h' (check_all-Clean cs (depth + 1) (spend s) b' l)))
    check_cond-Clean (cond_node op_other i arg cs) depth s b e h =
        enter-Clean depth s b _ e h
          (λ b' q d l h'. absurd (omega (arith, longer unknown_op (spend s), h')))

    check_all-Clean :
        (cs : Conditions) (depth : ℕ) (s : Check) (b : ℕ)
        → s.budget ≡ some b
        → length (check_all rule cs depth s).out ≡ length s.out
        → Clean (FineAll depth cs) (nodes_all cs) b (check_all rule cs depth s)
    check_all-Clean no_more depth s b e h = record {
      fine = tt;
      covered = omega arith;
      left = e ∙ ap some (omega arith);
    }
    check_all-Clean (one_more c cs) depth s b e h =
        let s1 = check_cond rule c depth s in
        let up = check_cond-grows c depth s in
        let up' = check_all-grows cs depth s1 in
        let first = check_cond-Clean c depth s b e (omega (arith, up, up', h)) in
        let rest =
          check_all-Clean cs depth s1 (b - nodes c) first.left (omega (arith, up, up', h)) in
        record {
          fine = (first.fine, rest.fine);
          covered = omega (arith, first.covered, rest.covered);
          left = rest.left ∙ ap some (omega (arith, first.covered, rest.covered));
        }
