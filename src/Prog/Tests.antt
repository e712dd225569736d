-- ===== src/Prog/Tests.antt =====
-- A program of two rules for the tests: the second fires only where the first does.
use robocolony.Common.{◌↔◌, ◌≤◌, All, length, pos}
use robocolony.Sim.Tests.{attacker}
use robocolony.Prog.Structure.{structure, max_rules}
use robocolony.Prog.Structure.Accepts.{IsWellFormed, structure_iff}
use robocolony.Prog.Runtime.{Program, Runtime, new_runtime, install, control}
use robocolony.Prog.Runtime.Current.{
  IsDriven, control-IsDriven, install-IsSound, new_runtime-IsSound,
}
use robocolony.Common.{◌≡◌, ◌≢◌, ◌<◌, refl, pos, String, true, false, [], ◌∷◌, some, get_elem?}
use robocolony.Sim.Grid.{origin}
use robocolony.Sim.Catalogue.{variant_none}
use robocolony.Sim.Blueprint.{no_blueprint}
use robocolony.Sim.World.State.{RobotView}
use robocolony.Prog.Catalogue.{
  pred_carrying_nothing, pred_at_own_base, do_move_forward, do_save_current_position, do_stop,
  lookup_action,
}
use robocolony.Prog.Program.{
  op_pred, op_and, Condition, cond_node, no_more, one_more, Action, Rule, is_primary,
}
use robocolony.Prog.Matcher.{matcher_of, cond, pred, truth, optimistic, heard}
use robocolony.Prog.Validate.{
  has_primary, any_primary, subset, conjuncts, keys_of, first_dominator, dominator, dominated_from,
  warn_dominated,
}
use robocolony.Prog.Decide.{
  side_effect, write, run_one, run_actions, take_tick, scan, resolve_primary,
  idle_at_own_base_with_cargo, decide,
}
use robocolony.Prog.Decide.Writes.{Writes, decide-Writes}
use robocolony.Prog.Decide.First.{Takes, decide-Takes, decide-warn_dominated}
use robocolony.Prog.Validate.Unreachable.{warn_dominated_lem}

abbrev leaf : String → Condition
leaf i = cond_node op_pred i (pos 0) no_more

abbrev plain_action : String → Action
plain_action i = record { do_id = i; arg = pos 0 }

abbrev save_here : Action
save_here = record { do_id = do_save_current_position; arg = pos 3 }

abbrev pub broad : Rule
broad = record {
  when = leaf pred_carrying_nothing;
  then_do = save_here ∷ plain_action do_move_forward ∷ [];
}

abbrev pub narrow : Rule
narrow = record {
  when =
      cond_node op_and "" (pos 0)
        (one_more (leaf pred_at_own_base) (one_more (leaf pred_carrying_nothing) no_more));
  then_do = plain_action do_stop ∷ [];
}

abbrev at_home : RobotView
at_home = record {
  tick = 0;
  id = 1;
  colony = 1;
  coord = origin;
  heading = 0;
  health = 20;
  cargo = variant_none;
  blueprint = no_blueprint;
  base = origin;
  has_base = true;
  memory = [];
  visible_components = [];
  visible_enemies = [];
  radar_targets = [];
  signals = [];
  weapon_ready = false;
  weapon_range = 0;
  obstacle_ahead = false;
  component_in_reach = false;
  at_base = true;
  path_blocked = false;
  target_reached = false;
  target_unreachable = false;
}

warned : warn_dominated (broad ∷ narrow ∷ []) ≡ (1, 0) ∷ []
unfolding warn_dominated dominated_from dominator conjuncts first_dominator keys_of any_primary
    is_primary lookup_action subset
warned = refl

narrow-holds : (cond (matcher_of at_home) narrow.when 0).0 ≡ true
unfolding cond pred truth optimistic heard
narrow-holds = refl

first_warned : get_elem? (warn_dominated (broad ∷ narrow ∷ [])) 0 ≡ some (1, 0)
first_warned = rw warned refl

warn_dominated_lem_example :
    (0 < 1) × (has_primary broad ≡ true) × ((cond (matcher_of at_home) broad.when 0).0 ≡ true)
warn_dominated_lem_example =
    warn_dominated_lem (broad ∷ narrow ∷ []) 0 1 0 narrow broad at_home first_warned refl refl
      narrow-holds

decide-warn_dominated_example : (decide (broad ∷ narrow ∷ []) at_home).1.rule ≢ some 1
decide-warn_dominated_example =
    decide-warn_dominated (broad ∷ narrow ∷ []) 0 1 0 at_home first_warned

first_taken : (decide (broad ∷ narrow ∷ []) at_home).1.rule ≡ some 0
unfolding decide scan run_actions run_one lookup_action take_tick resolve_primary side_effect write
    idle_at_own_base_with_cargo cond pred truth optimistic heard
first_taken = refl

decide-Takes_example : Takes at_home (broad ∷ narrow ∷ []) 0 0
decide-Takes_example = decide-Takes (broad ∷ narrow ∷ []) at_home 0 first_taken

decide-Writes_example : Writes (decide (broad ∷ narrow ∷ []) at_home).0
decide-Writes_example = decide-Writes (broad ∷ narrow ∷ []) at_home

structure_iff_example :
    (structure (broad ∷ narrow ∷ []) ≡ [])
    ↔ ((length (broad ∷ narrow ∷ []) ≤ max_rules) × All IsWellFormed (broad ∷ narrow ∷ []))
structure_iff_example = structure_iff (broad ∷ narrow ∷ [])

abbrev guard : Program
guard = record { v = pos 1; name = "guard"; rules = broad ∷ narrow ∷ [] }

abbrev guarding : Runtime
guarding = install new_runtime "p" guard

control-IsDriven_example : IsDriven guarding attacker (control guarding attacker)
control-IsDriven_example =
    control-IsDriven guarding attacker (install-IsSound new_runtime "p" guard new_runtime-IsSound)
