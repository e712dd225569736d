-- ===== src/Prog/Matcher.antt =====
-- The matcher of internal/prog/eval.go: whether a rule's condition holds of a view.
use robocolony.Common.{ℕ, ◌+◌, ◌*◌, ltb, leb, ◌==◌, ℤ, pos, negsuc, ◌*ℤ◌, ◌-ℤ◌, ltb_ℤ, pos_part}
use robocolony.Common.{
  Bool, true, false, not, ◌&&◌, ◌||◌, if◌then◌else◌, String, List, [], ◌∷◌, Option, none, some,
  is_some, get_elem?, length,
}
use robocolony.Sim.Grid.{Coord, eq_coord}
use robocolony.Sim.Catalogue.{variant_none, kind_weapon}
use robocolony.Sim.Blueprint.{has, starting_health}
use robocolony.Sim.World.State.{
  RobotView, Signal, SignalKind, come_here, avoid_here, Sighting, SightingKind, sight_component,
  sight_robot, sight_base, MemPoint,
}
use robocolony.Sim.World.Access.{mem_points}
use robocolony.Prog.Catalogue.{
  eq_string, PredicateSpec, lookup_predicate, missing, pred_carrying_component,
  pred_carrying_nothing, pred_health_below, pred_health_above, pred_at_own_base, pred_at_point,
  pred_point_is_set, pred_point_is_empty, pred_sees_component, pred_component_in_reach,
  pred_sees_enemy_robot, pred_sees_obstacle, pred_visible_target_in_weapon_range,
  pred_radar_detects_target, pred_detected_target_in_weapon_range, pred_received_come_here,
  pred_received_avoid_here, pred_path_blocked, pred_target_reached, pred_target_unreachable,
  pred_weapon_ready, pred_has_weapon, pred_enemy_visible,
}
use robocolony.Prog.Program.{
  op_pred, op_and, op_or, op_not, op_other, Condition, cond_node, Conditions, no_more, one_more,
  max_cond_depth,
}

pub record Matcher : Type 0 where
  pub v : RobotView
  pub signal : Option Signal
  pub any_world : Bool
  pub neg : Bool

-- The matcher that `Decide` makes for a rule.
abbrev pub matcher_of : RobotView → Matcher
matcher_of v = record { v = v; signal = none; any_world = false; neg = false }

-- `healthCmp`: a result that is not positive, negative or zero is not needed.
unfoldable pub health_cmp : RobotView → ℤ → ℤ
health_cmp v pct =
    let full = starting_health v.blueprint in
    let want = pct *ℤ pos full in
    let got = pos (v.health * 100) in
    if leb full 0
    then pos 0
    else if ltb_ℤ got want
    then negsuc 0
    else if ltb_ℤ want got
    then pos 1
    else pos 0

-- A register as `point` returns it; the array of the source has an entry for every index in range.
abbrev set_point : Option MemPoint → Option Coord
set_point none = none
set_point (some p) = if p.is_set then some p.coord else none

-- `point`; the coordinate counts only where the register is set.
unfoldable pub point : RobotView → ℤ → Option Coord
point v arg =
    if ltb_ℤ arg (pos 1) || ltb_ℤ (pos mem_points) arg
    then none
    else set_point (get_elem? v.memory (pos_part (arg -ℤ pos 1)))

abbrev stands_on : Coord → Option Coord → Bool
stands_on c none = false
stands_on c (some d) = eq_coord d c

abbrev within : ℕ → Option Sighting → Bool
within reach none = false
within reach (some s) = leb s.distance reach

-- `inWeaponRange`: the first of the list is in range.
unfoldable pub in_weapon_range : RobotView → List Sighting → Bool
in_weapon_range v s = within v.weapon_range (get_elem? s 0)

abbrev is_robot : SightingKind → Bool
is_robot sight_robot = true
is_robot sight_component = false
is_robot sight_base = false

-- `radarEnemy`.
unfoldable pub radar_enemy : List Sighting → Option Sighting
radar_enemy [] = none
radar_enemy (s ∷ ss) = if is_robot s.kind then some s else radar_enemy ss

abbrev eq_signal : SignalKind → SignalKind → Bool
eq_signal come_here come_here = true
eq_signal avoid_here avoid_here = true
eq_signal come_here avoid_here = false
eq_signal avoid_here come_here = false

-- The first signal of the kind: the loop of `hear`.
unfoldable pub first_signal : SignalKind → List Signal → Option Signal
first_signal k [] = none
first_signal k (s ∷ ss) = if eq_signal s.kind k then some s else first_signal k ss

-- What `hear` returns, and what it leaves in `signal`: the first signal heard stays.
unfoldable pub hears_signal : RobotView → SignalKind → Bool
hears_signal v k = is_some (first_signal k v.signals)

abbrev pub latch : Option Signal → Option Signal → Option Signal
latch (some s) heard = some s
latch none heard = heard

unfoldable pub listen : Matcher → SignalKind → Matcher
listen m k = record m { signal = latch m.signal (first_signal k m.v.signals) }

-- The predicate under the optimistic reading of a clean start.
unfoldable pub hoped : RobotView → Option PredicateSpec → Bool
hoped v none = false
hoped v (some s) = s.world && (length (missing s.needs v.blueprint) == 0)

-- The switch of `pred`: its results, in the order of the source.
unfoldable pub truth : RobotView → String → ℤ → Bool
truth v i arg =
    if eq_string i pred_carrying_component
    then not (v.cargo == variant_none)
    else if eq_string i pred_carrying_nothing
    then v.cargo == variant_none
    else if eq_string i pred_health_below
    then ltb_ℤ (health_cmp v arg) (pos 0)
    else if eq_string i pred_health_above
    then ltb_ℤ (pos 0) (health_cmp v arg)
    else if eq_string i pred_at_own_base
    then v.at_base
    else if eq_string i pred_at_point
    then stands_on v.coord (point v arg)
    else if eq_string i pred_point_is_set
    then is_some (point v arg)
    else if eq_string i pred_point_is_empty
    then not (is_some (point v arg))
    else if eq_string i pred_sees_component
    then ltb 0 (length v.visible_components)
    else if eq_string i pred_component_in_reach
    then v.component_in_reach
    else if eq_string i pred_sees_enemy_robot || eq_string i pred_enemy_visible
    then ltb 0 (length v.visible_enemies)
    else if eq_string i pred_sees_obstacle
    then v.obstacle_ahead
    else if eq_string i pred_radar_detects_target
    then ltb 0 (length v.radar_targets)
    else if eq_string i pred_received_come_here
    then hears_signal v come_here
    else if eq_string i pred_received_avoid_here
    then hears_signal v avoid_here
    else if eq_string i pred_path_blocked
    then v.path_blocked
    else if eq_string i pred_target_reached
    then v.target_reached
    else if eq_string i pred_target_unreachable
    then v.target_unreachable
    else if eq_string i pred_has_weapon
    then has v.blueprint kind_weapon
    else if eq_string i pred_weapon_ready
    then v.weapon_ready
    else if eq_string i pred_visible_target_in_weapon_range
    then in_weapon_range v v.visible_enemies
    else if eq_string i pred_detected_target_in_weapon_range
    then within v.weapon_range (radar_enemy v.radar_targets)
    else false

-- The two cases of the switch that call `hear` may also set the signal.
unfoldable pub heard : Matcher → String → Matcher
heard m i =
    if eq_string i pred_received_come_here
    then listen m come_here
    else if eq_string i pred_received_avoid_here
    then listen m avoid_here
    else m

-- The early return of `pred` for a predicate that the world may make true.
unfoldable pub optimistic : Matcher → String → Bool
optimistic m i = m.any_world && not m.neg && hoped m.v (lookup_predicate i)

-- `pred`, with the matcher after it.
unfoldable pub pred : Matcher → String → ℤ → Bool × Matcher
pred m i arg = if optimistic m i then (true, m) else (truth m.v i arg, heard m i)

abbrev pub is_empty : Conditions → Bool
is_empty no_more = true
is_empty (one_more c cs) = false

-- A branch that is too deep reads as false.
abbrev pub capped : ℕ → Matcher → Bool × Matcher → Bool × Matcher
capped depth m result = if leb max_cond_depth depth then (false, m) else result

-- `cond`, with the matcher after it, and its loops over the operands. A loop stops at the first
-- operand that decides it.
unfoldable mutual
  pub cond : Matcher → Condition → ℕ → Bool × Matcher
  cond m (cond_node op_pred i arg cs) depth = capped depth m (pred m i arg)
  cond m (cond_node op_and i arg cs) depth =
      let all = cond_all m cs (depth + 1) in
      capped depth m (if is_empty cs then (false, m) else all)
  cond m (cond_node op_or i arg cs) depth = capped depth m (cond_any m cs (depth + 1))
  cond m (cond_node op_not i arg cs) depth = capped depth m (cond_not m cs depth)
  cond m (cond_node op_other i arg cs) depth = (false, m)

  pub cond_all : Matcher → Conditions → ℕ → Bool × Matcher
  cond_all m no_more depth = (true, m)
  cond_all m (one_more c cs) depth =
      let (b, m') = cond m c depth in
      let rest = cond_all m' cs depth in if not b then (false, m') else rest

  pub cond_any : Matcher → Conditions → ℕ → Bool × Matcher
  cond_any m no_more depth = (false, m)
  cond_any m (one_more c cs) depth =
      let (b, m') = cond m c depth in
      let rest = cond_any m' cs depth in if b then (true, m') else rest

  -- The polarity is turned for the one operand, and turned back after it.
  pub cond_not : Matcher → Conditions → ℕ → Bool × Matcher
  cond_not m no_more depth = (false, m)
  cond_not m (one_more c no_more) depth =
      let (b, m') = cond (record m { neg = not m.neg }) c (depth + 1) in
      (not b, record m' { neg = not m'.neg })
  cond_not m (one_more c (one_more d cs)) depth = (false, m)
