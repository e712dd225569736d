-- ===== src/Prog/Program.antt =====
-- The data model of internal/prog/program.go.
use robocolony.Common.{ℕ, ℤ, String, Bool, false, List, Option, none, some}
use robocolony.Prog.Catalogue.{ActionSpec, lookup_action}

-- `CondOp` is a string on the wire; any string but the four of the language is `op_other`.
pub data CondOp : Type 0 where
  op_pred op_and op_or op_not op_other : CondOp

-- A condition, with its fields `Op`, `Pred`, `Arg` and `Of`; and the list `Of`.
mutual
  pub data Condition : Type 0 where
    cond_node : CondOp → String → ℤ → Conditions → Condition

  pub data Conditions : Type 0 where
    no_more : Conditions
    one_more : Condition → Conditions → Conditions

pub record Action : Type 0 where
  pub do_id : String
  pub arg : ℤ

pub record Rule : Type 0 where
  pub when : Condition
  pub then_do : List Action

abbrev pub max_cond_depth : ℕ
max_cond_depth = 16

abbrev ends_tick_of : Option ActionSpec → Bool
ends_tick_of none = false
ends_tick_of (some s) = s.ends_tick

-- `Action.Primary`.
unfoldable pub is_primary : Action → Bool
is_primary a = ends_tick_of (lookup_action a.do_id)
