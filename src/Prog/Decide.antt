-- ===== src/Prog/Decide.antt =====
-- `Decide` of internal/prog/eval.go: from a view to an action, with the trace that names the rule.
-- The phrase that the trace gives as its reason is left out.
pub mod First
pub mod Writes
use robocolony.Common.{
  ℕ, zero, suc, ◌+◌, ltb, ◌==◌, ℤ, pos, negsuc, ◌+ℤ◌, ◌-ℤ◌, ltb_ℤ, Bool, true, false, not, ◌&&◌,
  ◌||◌, if◌then◌else◌,
}
use robocolony.Common.{String, List, [], ◌∷◌, ◌++◌, Option, none, some, get_elem?}
use robocolony.Sim.Grid.{Coord, eq_coord, origin}
use robocolony.Sim.Catalogue.{variant_none, kind_manipulator}
use robocolony.Sim.Blueprint.{has}
use robocolony.Sim.World.State.{
  RobotView, Signal, come_here, avoid_here, Sighting, MemWrite, ActionKind,
}
use robocolony.Sim.World.State.{
  act_none, act_move_forward, act_turn_left, act_turn_right, act_stop, act_move_to, act_pick_up,
  act_deposit, act_drop, act_turn_random, act_attack,
}
use robocolony.Sim.World.State as State
use robocolony.Sim.World.Access.{mem_points}
use robocolony.Prog.Catalogue.{
  eq_string, ActionSpec, lookup_action, do_move_forward, do_turn_left, do_turn_right,
  do_turn_random, do_stop, do_move_to_own_base, do_move_to_visible_target, do_move_to_radar_target,
  do_move_to_point, do_move_away_from_target, do_move_away_from_point, do_pick_up_component,
  do_deposit_component_at_base, do_drop_component, do_attack_visible_target, do_attack_radar_target,
  do_save_current_position, do_save_visible_target, do_save_radar_target, do_save_signal_position,
  do_clear_point, do_broadcast_come_here, do_broadcast_avoid_here,
}
use robocolony.Prog.Program.{Action, Rule}
use robocolony.Prog.Matcher.{Matcher, matcher_of, point, radar_enemy, cond}

-- `nearestVisible`: the nearer head of the two lists.
abbrev pub nearer_head : Option Sighting → Option Sighting → Option Sighting
nearer_head none none = none
nearer_head (some c) none = some c
nearer_head none (some e) = some e
nearer_head (some c) (some e) =
    if not (e.distance == c.distance)
    then if ltb e.distance c.distance then some e else some c
    else if ltb_ℤ e.id c.id
    then some e
    else some c

unfoldable pub nearest_visible : RobotView → Option Sighting
nearest_visible v = nearer_head (get_elem? v.visible_components 0) (get_elem? v.visible_enemies 0)

abbrev pub place : Option Sighting → Option Coord
place none = none
place (some s) = some s.coord

abbrev pub origin_of : Option Signal → Option Coord
origin_of none = none
origin_of (some s) = some s.coord

abbrev pub in_points : ℤ → Bool
in_points arg = not (ltb_ℤ arg (pos 1) || ltb_ℤ (pos mem_points) arg)

-- `write`: `none` where the source returns false, which leaves the action as it is.
unfoldable pub write : State.Action → ℤ → Option Coord → Option State.Action
write act arg none = none
write act arg (some c) =
    if in_points arg
    then some (record act {
      memory = act.memory ++ record { point = arg -ℤ pos 1; coord = c; clear = false } ∷ [];
    })
    else none

-- `heardSignal`.
abbrev pub heard_signal : RobotView → Option Signal → Option Signal
heard_signal v (some s) = some s
heard_signal v none = get_elem? v.signals 0

-- `sideEffect`, likewise.
unfoldable pub side_effect : State.Action → Action → RobotView → Option Signal → Option State.Action
side_effect act a v heard =
    if eq_string a.do_id do_save_current_position
    then write act a.arg (some v.coord)
    else if eq_string a.do_id do_save_visible_target
    then write act a.arg (place (nearest_visible v))
    else if eq_string a.do_id do_save_radar_target
    then write act a.arg (place (get_elem? v.radar_targets 0))
    else if eq_string a.do_id do_save_signal_position
    then write act a.arg (origin_of (heard_signal v heard))
    else if eq_string a.do_id do_clear_point
    then if in_points a.arg
      then some (record act {
        memory = act.memory ++ record { point = a.arg -ℤ pos 1; coord = origin; clear = true } ∷ [];
      })
      else none
    else if eq_string a.do_id do_broadcast_come_here
    then some (record act { broadcasts = act.broadcasts ++ come_here ∷ [] })
    else if eq_string a.do_id do_broadcast_avoid_here
    then some (record act { broadcasts = act.broadcasts ++ avoid_here ∷ [] })
    else none

abbrev sign : ℤ → ℤ
sign v = if ltb_ℤ (pos 0) v then pos 1 else if ltb_ℤ v (pos 0) then negsuc 0 else pos 0

abbrev idle : ActionKind × Coord
idle = (act_none, origin)

-- `retreat`: one step away.
unfoldable pub retreat : Coord → Coord → ActionKind × Coord
retreat from away =
    let to : Coord = record {
      x = from.x +ℤ sign (from.x -ℤ away.x);
      y = from.y +ℤ sign (from.y -ℤ away.y);
    } in
    if eq_coord to from then idle else (act_move_to, to)

-- An action with a target, if there is one.
abbrev aimed : ActionKind → Option Coord → ActionKind × Coord
aimed k none = idle
aimed k (some c) = (k, c)

abbrev away_from : Coord → Option Coord → ActionKind × Coord
away_from c none = idle
away_from c (some d) = retreat c d

-- `resolvePrimary`, less the reason.
unfoldable pub resolve_primary : Action → RobotView → ActionKind × Coord
resolve_primary a v =
    if eq_string a.do_id do_move_forward
    then (act_move_forward, origin)
    else if eq_string a.do_id do_turn_left
    then (act_turn_left, origin)
    else if eq_string a.do_id do_turn_right
    then (act_turn_right, origin)
    else if eq_string a.do_id do_turn_random
    then (act_turn_random, origin)
    else if eq_string a.do_id do_stop
    then (act_stop, origin)
    else if eq_string a.do_id do_move_to_own_base
    then if v.has_base then (act_move_to, v.base) else idle
    else if eq_string a.do_id do_move_to_visible_target
    then aimed act_move_to (place (nearest_visible v))
    else if eq_string a.do_id do_move_to_radar_target
    then aimed act_move_to (place (get_elem? v.radar_targets 0))
    else if eq_string a.do_id do_move_to_point
    then aimed act_move_to (point v a.arg)
    else if eq_string a.do_id do_move_away_from_target
    then away_from v.coord (place (nearest_visible v))
    else if eq_string a.do_id do_move_away_from_point
    then away_from v.coord (point v a.arg)
    else if eq_string a.do_id do_pick_up_component
    then (act_pick_up, origin)
    else if eq_string a.do_id do_deposit_component_at_base
    then (act_deposit, origin)
    else if eq_string a.do_id do_drop_component
    then (act_drop, origin)
    else if eq_string a.do_id do_attack_visible_target
    then aimed act_attack (place (get_elem? v.visible_enemies 0))
    else if eq_string a.do_id do_attack_radar_target
    then aimed act_attack (place (radar_enemy v.radar_targets))
    else idle

-- The variables of the loop over a rule's actions.
pub record Run : Type 0 where
  pub act : State.Action
  pub side : ℕ
  pub first : Option Action

abbrev pub earliest : Option Action → Action → Option Action
earliest none a = some a
earliest (some b) a = some b

abbrev pub count_side : Run → Option State.Action → Run
count_side s none = s
count_side s (some act) = record s { act = act; side = s.side + 1 }

-- One round: an unknown action is passed over.
unfoldable pub run_one : RobotView → Option Signal → Action → Run → Option ActionSpec → Run
run_one v heard a s none = s
run_one v heard a s (some spec) =
    if spec.ends_tick
    then record s { first = earliest s.first a }
    else count_side s (side_effect s.act a v heard)

unfoldable pub run_actions : RobotView → Option Signal → List Action → Run → Run
run_actions v heard [] s = s
run_actions v heard (a ∷ rest) s =
    run_actions v heard rest (run_one v heard a s (lookup_action a.do_id))

-- `none` is the rule -1; `matched` lists the indices whose bits are set.
pub record Trace : Type 0 where
  pub tick : ℕ
  pub rule : Option ℕ
  pub action : String
  pub side : ℕ
  pub is_idle : Bool
  pub matched : List ℕ

abbrev pub is_act_none : ActionKind → Bool
is_act_none act_none = true
is_act_none act_move_forward = false
is_act_none act_turn_left = false
is_act_none act_turn_right = false
is_act_none act_stop = false
is_act_none act_move_to = false
is_act_none act_pick_up = false
is_act_none act_deposit = false
is_act_none act_drop = false
is_act_none act_turn_random = false
is_act_none act_attack = false

-- The end of the scan at a rule with a primary action, or its continuation.
unfoldable pub take_tick :
    RobotView
    → ℕ
    → State.Action
    → Trace
    → Option Action
    → State.Action × Trace
    → State.Action × Trace
take_tick v i act tr none continued = continued
take_tick v i act tr (some a) continued =
    let (kind, coord) = resolve_primary a v in
    (
      record act { kind = kind; coord = coord },
      record tr { rule = some i; action = a.do_id; is_idle = is_act_none kind },
    )

-- The loop over the rules, from index `i` on.
unfoldable pub scan : RobotView → ℕ → List Rule → State.Action → Trace → State.Action × Trace
scan v i [] act tr = (act, tr)
scan v i (r ∷ rs) act tr =
    let (holds, m) = cond (matcher_of v) r.when 0 in
    let run =
      run_actions v m.signal r.then_do (record { act = act; side = tr.side; first = none }) in
    let tr' = record tr { side = run.side; matched = tr.matched ++ i ∷ [] } in
    let skipped = scan v (suc i) rs act tr in
    let continued = scan v (suc i) rs run.act tr' in
    if not holds then skipped else take_tick v i run.act tr' run.first continued

abbrev pointless : RobotView → State.Action → ActionKind → Bool
pointless v act act_none = true
pointless v act act_move_to = eq_coord act.coord v.coord || v.has_base && eq_coord act.coord v.base
pointless v act act_move_forward = false
pointless v act act_turn_left = false
pointless v act act_turn_right = false
pointless v act act_stop = false
pointless v act act_pick_up = false
pointless v act act_deposit = false
pointless v act act_drop = false
pointless v act act_turn_random = false
pointless v act act_attack = false

-- `idleAtOwnBaseWithCargo`: whether the deposit reflex takes the tick.
unfoldable pub idle_at_own_base_with_cargo : RobotView → State.Action → Bool
idle_at_own_base_with_cargo v act =
    if v.cargo == variant_none || not v.at_base || not (has v.blueprint kind_manipulator)
    then false
    else pointless v act act.kind

abbrev pub no_action : State.Action
no_action = record { kind = act_none; coord = origin; memory = []; broadcasts = [] }

abbrev pub no_match : RobotView → Trace
no_match v = record {
  tick = v.tick;
  rule = none;
  action = "";
  side = 0;
  is_idle = true;
  matched = [];
}

unfoldable pub decide : List Rule → RobotView → State.Action × Trace
decide rules v =
    let (act, tr) = scan v 0 rules no_action (no_match v) in
    if idle_at_own_base_with_cargo v act
    then (
      record act { kind = act_deposit; coord = origin },
      record tr { rule = none; action = do_deposit_component_at_base; is_idle = false },
    )
    else (act, tr)
