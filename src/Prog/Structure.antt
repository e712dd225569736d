-- ===== src/Prog/Structure.antt =====
-- What a program must keep to be represented at all: `structure` and `checkCond` of
-- internal/prog/program.go, `ArgKind.check` of internal/prog/catalogue.go, and the errors of
-- `Validate` of internal/prog/validate.go. An issue keeps its code and its rule; its text is left
-- out.

pub mod Sound
pub mod Complete
pub mod Accepts
use robocolony.Common.{
  ℕ, zero, suc, ◌+◌, ◌-◌, leb, ltb, ◌==◌, ℤ, pos, eqb_ℤ, leb_ℤ, ltb_ℤ, Bool, true, false, not, ◌||◌,
  if◌then◌else◌, String,
}
use robocolony.Common.{List, [], ◌∷◌, ◌++◌, Option, none, some, length, keep}
use robocolony.Sim.World.Access.{mem_points}
use robocolony.Sim.Blueprint.{Blueprint}
use robocolony.Prog.Catalogue.{
  ArgKind, arg_none, arg_point, arg_percent, PredicateSpec, ActionSpec, lookup_predicate,
  lookup_action, missing,
}
use robocolony.Prog.Program.{
  CondOp, op_pred, op_and, op_or, op_not, op_other, Condition, cond_node, Conditions, no_more,
  one_more, max_cond_depth, Action, Rule,
}
use robocolony.Prog.Matcher.{is_empty}

pub data IssueCode : Type 0 where
  too_many_rules too_large too_deep unknown_predicate bad_argument empty_group bad_not unknown_op :
      IssueCode
  no_action too_many_actions unknown_action missing_component multiple_primary : IssueCode

-- `none` is the rule -1, the program as a whole.
pub record Issue : Type 0 where
  pub code : IssueCode
  pub rule : Option ℕ

abbrev pub max_rules : ℕ
max_rules = 256

abbrev pub max_actions_per_rule : ℕ
max_actions_per_rule = 8

abbrev pub max_cond_nodes : ℕ
max_cond_nodes = 256

-- `ArgKind.check`: whether its message is empty.
unfoldable pub fits : ArgKind → ℤ → Bool
fits arg_point v = not (ltb_ℤ v (pos 1) || ltb_ℤ (pos mem_points) v)
fits arg_percent v = not (ltb_ℤ v (pos 0) || ltb_ℤ (pos 100) v)
fits arg_none v = eqb_ℤ v (pos 0)

-- The issues so far and the budget of nodes; `none` is a budget below zero, once the overflow has
-- been reported.
pub record Check : Type 0 where
  pub out : List Issue
  pub budget : Option ℕ

abbrev pub add_issue : ℕ → IssueCode → Check → Check
add_issue rule code s = record {
  out = s.out ++ record { code = code; rule = some rule } ∷ [];
  budget = s.budget;
}

abbrev pub spent : Option ℕ → Option ℕ
spent none = none
spent (some zero) = none
spent (some (suc b)) = some b

abbrev pub spend : Check → Check
spend s = record { out = s.out; budget = spent s.budget }

-- The guards of `checkCond` before its switch, and the result of the switch.
abbrev pub enter : ℕ → ℕ → Check → Option ℕ → Check → Check
enter rule depth s none result = s
enter rule depth s (some zero) result = add_issue rule too_large (spend s)
enter rule depth s (some (suc b)) result =
    if leb max_cond_depth depth then add_issue rule too_deep (spend s) else result

unfoldable pub check_pred : ℕ → Option PredicateSpec → ℤ → Check → Check
check_pred rule none arg s = add_issue rule unknown_predicate s
check_pred rule (some spec) arg s = if fits spec.arg arg then s else add_issue rule bad_argument s

abbrev pub is_single : Conditions → Bool
is_single no_more = false
is_single (one_more c no_more) = true
is_single (one_more c (one_more d cs)) = false

-- `checkCond`, and its loops over the operands.
unfoldable mutual
  pub check_cond : ℕ → Condition → ℕ → Check → Check
  check_cond rule (cond_node op_pred i arg cs) depth s =
      enter rule depth s s.budget (check_pred rule (lookup_predicate i) arg (spend s))
  check_cond rule (cond_node op_and i arg cs) depth s =
      let all = check_all rule cs (depth + 1) (spend s) in
      enter rule depth s s.budget
        (if is_empty cs then add_issue rule empty_group (spend s) else all)
  check_cond rule (cond_node op_or i arg cs) depth s =
      let all = check_all rule cs (depth + 1) (spend s) in
      enter rule depth s s.budget
        (if is_empty cs then add_issue rule empty_group (spend s) else all)
  check_cond rule (cond_node op_not i arg cs) depth s = enter rule depth s s.budget (
      check_all rule cs (depth + 1)
        (if is_single cs then spend s else add_issue rule bad_not (spend s)))
  check_cond rule (cond_node op_other i arg cs) depth s =
      enter rule depth s s.budget (add_issue rule unknown_op (spend s))

  pub check_all : ℕ → Conditions → ℕ → Check → Check
  check_all rule no_more depth s = s
  check_all rule (one_more c cs) depth s = check_all rule cs depth (check_cond rule c depth s)

abbrev pub issue : ℕ → IssueCode → List Issue
issue rule code = record { code = code; rule = some rule } ∷ []

unfoldable pub check_action : ℕ → Option ActionSpec → ℤ → List Issue
check_action rule none arg = issue rule unknown_action
check_action rule (some spec) arg = if fits spec.arg arg then [] else issue rule bad_argument

unfoldable pub check_actions : ℕ → List Action → List Issue
check_actions rule [] = []
check_actions rule (a ∷ rest) =
    check_action rule (lookup_action a.do_id) a.arg ++ check_actions rule rest

unfoldable pub check_count : ℕ → List Action → List Issue
check_count rule actions =
    if length actions == 0
    then issue rule no_action
    else if ltb max_actions_per_rule (length actions)
    then issue rule too_many_actions
    else []

-- The part of `structure` that is about one rule.
unfoldable pub check_rule : ℕ → Rule → List Issue
check_rule i r =
    (check_cond i r.when 0 (record { out = []; budget = some max_cond_nodes })).out
    ++ check_count i r.then_do
    ++ check_actions i r.then_do

unfoldable pub check_rules : ℕ → List Rule → List Issue
check_rules i [] = []
check_rules i (r ∷ rs) = check_rule i r ++ check_rules (suc i) rs

unfoldable pub structure : List Rule → List Issue
structure rules =
    if ltb max_rules (length rules)
    then record { code = too_many_rules; rule = none } ∷ []
    else check_rules 0 rules

-- The errors that `Validate` adds for one rule, of its actions and of their number.
abbrev pub lacks : ℕ → Blueprint → Option ActionSpec → List Issue
lacks rule b none = []
lacks rule b (some spec) =
    if length (missing spec.needs b) == 0 then [] else issue rule missing_component

unfoldable pub check_hardware : ℕ → Blueprint → List Action → List Issue
check_hardware rule b [] = []
check_hardware rule b (a ∷ rest) =
    lacks rule b (lookup_action a.do_id) ++ check_hardware rule b rest

abbrev pub primary_count : Option ActionSpec → ℕ
primary_count none = 0
primary_count (some spec) = if spec.ends_tick then 1 else 0

unfoldable pub count_primaries : List Action → ℕ
count_primaries [] = 0
count_primaries (a ∷ rest) = primary_count (lookup_action a.do_id) + count_primaries rest

unfoldable pub validate_rules : ℕ → Blueprint → List Rule → List Issue
validate_rules i b [] = []
validate_rules i b (r ∷ rs) =
    check_hardware i b r.then_do
    ++ (if ltb 1 (count_primaries r.then_do) then issue i multiple_primary else [])
    ++ validate_rules (suc i) b rs

-- The field `Errors` of the result of `Validate`.
unfoldable pub validate_errors : List Rule → Blueprint → List Issue
validate_errors rules b = structure rules ++ validate_rules 0 b rules
