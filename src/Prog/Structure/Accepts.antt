-- ===== src/Prog/Structure/Accepts.antt =====
-- Which programs `structure` accepts.
use robocolony.Common.{ℕ, suc, ◌≤◌, ◌≡◌, refl, ap, ltb, ◌==◌, ℤ, Bool, true, false, arith, inl, inr}
use robocolony.Common.{List, [], ◌∷◌, ◌++◌, Option, none, some, length, Bool-cases}
use robocolony.Prog.Catalogue.{ActionSpec, lookup_action}
use robocolony.Prog.Program.{Action, Rule}
use robocolony.Prog.Structure.{Check, fits, check_cond}
use robocolony.Common.{All, ◌↔◌}
use robocolony.Prog.Structure.{
  Issue, max_rules, max_actions_per_rule, max_cond_nodes, check_action, check_actions, check_count,
  check_rule, check_rules, structure,
}
use robocolony.Prog.Structure.Sound.{nodes, Fine, check_cond-Clean}
use robocolony.Prog.Structure.Complete.{check_cond-Passes}

abbrev pub action_fits : Option ActionSpec → ℤ → Bool
action_fits none arg = false
action_fits (some spec) arg = fits spec.arg arg

-- The action is in the catalogue and takes the argument.
abbrev pub IsKnownAction : Action → Type 0
IsKnownAction a = action_fits (lookup_action a.do_id) a.arg ≡ true

-- The limits of one rule, as the language states them.
pub record IsWellFormed (r : Rule) : Type 0 where
  pub condition : Fine 0 r.when
  pub size : nodes r.when ≤ max_cond_nodes
  pub some_action : 1 ≤ length r.then_do
  pub few_actions : length r.then_do ≤ max_actions_per_rule
  pub known : All IsKnownAction r.then_do

append-nil {ℓ} : {A : Type ℓ} (xs ys : List A) → (xs ++ ys ≡ []) ↔ ((xs ≡ []) × (ys ≡ []))
append-nil [] ys = (λ h. (refl, h), λ h. h.1)
append-nil (x ∷ xs) ys = (λ h. cc, λ h. cc)

length-nil {ℓ} : {A : Type ℓ} (xs : List A) → length xs ≡ 0 → xs ≡ []
length-nil [] h = refl
length-nil (x ∷ xs) h = absurd (omega arith)

check_action_iff :
    (i : ℕ) (o : Option ActionSpec) (arg : ℤ)
    → (check_action i o arg ≡ []) ↔ (action_fits o arg ≡ true)
unfolding check_action
check_action_iff i none arg = (λ h. cc, λ h. cc)
check_action_iff i (some spec) arg = elim (Bool-cases (fits spec.arg arg)) [
  | inl e ↦ rw (e, check_action) (λ h. refl, λ h. refl)
  | inr e ↦ rw (e, check_action) (λ h. cc, λ h. cc)
]

check_actions_iff :
    (i : ℕ) (todo : List Action) → (check_actions i todo ≡ []) ↔ All IsKnownAction todo
unfolding check_actions
check_actions_iff i [] = (λ h. tt, λ h. refl)
check_actions_iff i (a ∷ rest) =
    let here = check_action_iff i (lookup_action a.do_id) a.arg in
    let later = check_actions_iff i rest in
    let both = append-nil (check_action i (lookup_action a.do_id) a.arg) (check_actions i rest) in
    (λ h. (here.0 (both.0 h).0, later.0 (both.0 h).1), λ h. both.1 (here.1 h.0, later.1 h.1))

check_count_iff :
    (i : ℕ) (todo : List Action)
    → (check_count i todo ≡ []) ↔ ((1 ≤ length todo) × (length todo ≤ max_actions_per_rule))
unfolding check_count
check_count_iff i todo = elim (Bool-cases (length todo == 0)) [
  | inl e ↦ rw (e, check_count) (λ h. cc, λ h. absurd (ground arith))
  | inr e ↦ elim (Bool-cases (ltb max_actions_per_rule (length todo))) [
    | inl f ↦ rw (e, f, check_count) (λ h. cc, λ h. absurd (ground arith))
    | inr f ↦ rw (e, f, check_count) (λ h. (ground arith, ground arith), λ h. refl)
  ]
]

abbrev start : Check
start = record { out = []; budget = some max_cond_nodes }

check_rule_iff : (i : ℕ) (r : Rule) → (check_rule i r ≡ []) ↔ IsWellFormed r
unfolding check_rule
check_rule_iff i r = (to, from)
  where
    walked : List Issue
    walked = (check_cond i r.when 0 start).out

    to : check_rule i r ≡ [] → IsWellFormed r
    to h =
        let outer =
          (append-nil (walked ++ check_count i r.then_do) (check_actions i r.then_do)).0 h in
        let inner = (append-nil walked (check_count i r.then_do)).0 outer.0 in
        let clean =
          check_cond-Clean i r.when 0 start max_cond_nodes refl (ap (λ xs. length xs) inner.0) in
        let count = (check_count_iff i r.then_do).0 inner.1 in
        record {
          condition = clean.fine;
          size = clean.covered;
          some_action = count.0;
          few_actions = count.1;
          known = (check_actions_iff i r.then_do).0 outer.1;
        }

    from : IsWellFormed r → check_rule i r ≡ []
    from w =
        let walks = check_cond-Passes i r.when 0 start max_cond_nodes refl w.condition w.size in
        let counts = (check_count_iff i r.then_do).1 (w.some_action, w.few_actions) in
        let acts = (check_actions_iff i r.then_do).1 w.known in
        (append-nil (walked ++ check_count i r.then_do) (check_actions i r.then_do)).1
          ((append-nil walked (check_count i r.then_do)).1 (walks.same, counts), acts)

check_rules_iff : (i : ℕ) (rules : List Rule) → (check_rules i rules ≡ []) ↔ All IsWellFormed rules
unfolding check_rules
check_rules_iff i [] = (λ h. tt, λ h. refl)
check_rules_iff i (r ∷ rs) =
    let here = check_rule_iff i r in
    let later = check_rules_iff (suc i) rs in
    let both = append-nil (check_rule i r) (check_rules (suc i) rs) in
    (λ h. (here.0 (both.0 h).0, later.0 (both.0 h).1), λ h. both.1 (here.1 h.0, later.1 h.1))

-- `structure` finds no issue exactly in the programs that keep the limits: at most 256 rules, each
-- with a well-formed condition of at most 256 nodes that is nowhere deeper than 16 levels, and with
-- one to eight actions, and with known predicates and actions on arguments in range throughout.
pub structure_iff :
    (rules : List Rule)
    → (structure rules ≡ []) ↔ ((length rules ≤ max_rules) × All IsWellFormed rules)
unfolding structure
structure_iff rules = elim (Bool-cases (ltb max_rules (length rules))) [
  | inl e ↦ rw (e, structure) (λ h. cc, λ h. absurd (ground (arith, h.0)))
  | inr e ↦
      rw (e, structure)
        (λ h. (ground arith, (check_rules_iff 0 rules).0 h), λ h. (check_rules_iff 0 rules).1 h.1)
]
