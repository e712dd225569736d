-- ===== src/Prog/Catalogue.antt =====
-- The language of internal/prog/catalogue.go: the identifiers, and what each predicate and action
-- takes, needs and is. The labels and descriptions are texts for the player, and are left out.
use robocolony.Common.{
  ℕ, Bool, true, false, not, List, [], ◌∷◌, Option, none, some, keep, if◌then◌else◌, String,
}
use text.Mathlib.Text.{◌==◌}
use robocolony.Sim.Catalogue.{kind_weapon, kind_radar, kind_manipulator}
use robocolony.Sim.Blueprint.{Blueprint, has}

abbrev pub eq_string : String → String → Bool
eq_string s t = s == t

pub data ArgKind : Type 0 where
  arg_none arg_point arg_percent : ArgKind

pub record PredicateSpec : Type 0 where
  pub id : String
  pub group : String
  pub arg : ArgKind
  pub world : Bool
  pub needs : List ℕ

-- The field `Primary` is `ends_tick`.
pub record ActionSpec : Type 0 where
  pub id : String
  pub group : String
  pub arg : ArgKind
  pub ends_tick : Bool
  pub needs : List ℕ

abbrev pub pred_carrying_component : String
pred_carrying_component = "carrying_component"

abbrev pub pred_carrying_nothing : String
pred_carrying_nothing = "carrying_nothing"

abbrev pub pred_health_below : String
pred_health_below = "health_below"

abbrev pub pred_health_above : String
pred_health_above = "health_above"

abbrev pub pred_at_own_base : String
pred_at_own_base = "at_own_base"

abbrev pub pred_at_point : String
pred_at_point = "at_point"

abbrev pub pred_point_is_set : String
pred_point_is_set = "point_is_set"

abbrev pub pred_point_is_empty : String
pred_point_is_empty = "point_is_empty"

abbrev pub pred_sees_component : String
pred_sees_component = "sees_component"

abbrev pub pred_component_in_reach : String
pred_component_in_reach = "component_in_reach"

abbrev pub pred_sees_enemy_robot : String
pred_sees_enemy_robot = "sees_enemy_robot"

abbrev pub pred_sees_obstacle : String
pred_sees_obstacle = "sees_obstacle"

abbrev pub pred_visible_target_in_weapon_range : String
pred_visible_target_in_weapon_range = "visible_target_in_weapon_range"

abbrev pub pred_radar_detects_target : String
pred_radar_detects_target = "radar_detects_target"

abbrev pub pred_detected_target_in_weapon_range : String
pred_detected_target_in_weapon_range = "detected_target_in_weapon_range"

abbrev pub pred_received_come_here : String
pred_received_come_here = "received_come_here"

abbrev pub pred_received_avoid_here : String
pred_received_avoid_here = "received_avoid_here"

abbrev pub pred_path_blocked : String
pred_path_blocked = "path_blocked"

abbrev pub pred_target_reached : String
pred_target_reached = "target_reached"

abbrev pub pred_target_unreachable : String
pred_target_unreachable = "target_unreachable"

abbrev pub pred_weapon_ready : String
pred_weapon_ready = "weapon_ready"

abbrev pub pred_has_weapon : String
pred_has_weapon = "has_weapon"

abbrev pub pred_enemy_visible : String
pred_enemy_visible = "enemy_visible"

abbrev pub do_move_forward : String
do_move_forward = "move_forward"

abbrev pub do_turn_left : String
do_turn_left = "turn_left"

abbrev pub do_turn_right : String
do_turn_right = "turn_right"

abbrev pub do_turn_random : String
do_turn_random = "turn_random"

abbrev pub do_stop : String
do_stop = "stop"

abbrev pub do_move_to_own_base : String
do_move_to_own_base = "move_to_own_base"

abbrev pub do_move_to_visible_target : String
do_move_to_visible_target = "move_to_visible_target"

abbrev pub do_move_to_radar_target : String
do_move_to_radar_target = "move_to_radar_target"

abbrev pub do_move_to_point : String
do_move_to_point = "move_to_point"

abbrev pub do_move_away_from_target : String
do_move_away_from_target = "move_away_from_target"

abbrev pub do_move_away_from_point : String
do_move_away_from_point = "move_away_from_point"

abbrev pub do_pick_up_component : String
do_pick_up_component = "pick_up_component"

abbrev pub do_deposit_component_at_base : String
do_deposit_component_at_base = "deposit_component_at_base"

abbrev pub do_drop_component : String
do_drop_component = "drop_component"

abbrev pub do_attack_visible_target : String
do_attack_visible_target = "attack_visible_target"

abbrev pub do_attack_radar_target : String
do_attack_radar_target = "attack_radar_target"

abbrev pub do_save_current_position : String
do_save_current_position = "save_current_position"

abbrev pub do_save_visible_target : String
do_save_visible_target = "save_visible_target"

abbrev pub do_save_radar_target : String
do_save_radar_target = "save_radar_target"

abbrev pub do_save_signal_position : String
do_save_signal_position = "save_signal_position"

abbrev pub do_clear_point : String
do_clear_point = "clear_point"

abbrev pub do_broadcast_come_here : String
do_broadcast_come_here = "broadcast_come_here"

abbrev pub do_broadcast_avoid_here : String
do_broadcast_avoid_here = "broadcast_avoid_here"

abbrev predicate : String → String → ArgKind → Bool → List ℕ → PredicateSpec
predicate i g a w n = record { id = i; group = g; arg = a; world = w; needs = n }

abbrev action : String → String → ArgKind → Bool → List ℕ → ActionSpec
action i g a p n = record { id = i; group = g; arg = a; ends_tick = p; needs = n }

abbrev pub predicates : List PredicateSpec
predicates =
    predicate pred_carrying_component "self" arg_none false []
    ∷ predicate pred_carrying_nothing "self" arg_none false []
    ∷ predicate pred_health_below "self" arg_percent false []
    ∷ predicate pred_health_above "self" arg_percent false []
    ∷ predicate pred_at_own_base "location" arg_none false []
    ∷ predicate pred_at_point "location" arg_point false []
    ∷ predicate pred_point_is_set "location" arg_point false []
    ∷ predicate pred_point_is_empty "location" arg_point false []
    ∷ predicate pred_sees_component "vision" arg_none true []
    ∷ predicate pred_component_in_reach "vision" arg_none true []
    ∷ predicate pred_sees_enemy_robot "vision" arg_none true []
    ∷ predicate pred_sees_obstacle "vision" arg_none true []
    ∷ predicate pred_visible_target_in_weapon_range "vision" arg_none true (kind_weapon ∷ [])
    ∷ predicate pred_radar_detects_target "radar" arg_none true (kind_radar ∷ [])
    ∷ predicate pred_detected_target_in_weapon_range "radar" arg_none true
        (kind_radar ∷ kind_weapon ∷ [])
    ∷ predicate pred_received_come_here "communication" arg_none true []
    ∷ predicate pred_received_avoid_here "communication" arg_none true []
    ∷ predicate pred_path_blocked "reachability" arg_none false []
    ∷ predicate pred_target_reached "reachability" arg_none false []
    ∷ predicate pred_target_unreachable "reachability" arg_none false []
    ∷ predicate pred_weapon_ready "combat" arg_none false (kind_weapon ∷ [])
    ∷ predicate pred_has_weapon "combat" arg_none false []
    ∷ predicate pred_enemy_visible "combat" arg_none true []
    ∷ []

abbrev pub actions : List ActionSpec
actions =
    action do_move_forward "movement" arg_none true []
    ∷ action do_turn_left "movement" arg_none true []
    ∷ action do_turn_right "movement" arg_none true []
    ∷ action do_turn_random "movement" arg_none true []
    ∷ action do_stop "movement" arg_none true []
    ∷ action do_move_to_own_base "navigation" arg_none true []
    ∷ action do_move_to_visible_target "navigation" arg_none true []
    ∷ action do_move_to_radar_target "navigation" arg_none true (kind_radar ∷ [])
    ∷ action do_move_to_point "navigation" arg_point true []
    ∷ action do_move_away_from_target "navigation" arg_none true []
    ∷ action do_move_away_from_point "navigation" arg_point true []
    ∷ action do_pick_up_component "interaction" arg_none true (kind_manipulator ∷ [])
    ∷ action do_deposit_component_at_base "interaction" arg_none true (kind_manipulator ∷ [])
    ∷ action do_drop_component "interaction" arg_none true (kind_manipulator ∷ [])
    ∷ action do_attack_visible_target "combat" arg_none true (kind_weapon ∷ [])
    ∷ action do_attack_radar_target "combat" arg_none true (kind_radar ∷ kind_weapon ∷ [])
    ∷ action do_save_current_position "memory" arg_point false []
    ∷ action do_save_visible_target "memory" arg_point false []
    ∷ action do_save_radar_target "memory" arg_point false (kind_radar ∷ [])
    ∷ action do_save_signal_position "memory" arg_point false []
    ∷ action do_clear_point "memory" arg_point false []
    ∷ action do_broadcast_come_here "communication" arg_none false []
    ∷ action do_broadcast_avoid_here "communication" arg_none false []
    ∷ []

-- The first row with the identifier: the loop of the two lookups.
abbrev pub find_id {ℓ} : {A : Type ℓ} → (A → String) → String → List A → Option A
find_id key i [] = none
find_id key i (s ∷ ss) = if eq_string (key s) i then some s else find_id key i ss

unfoldable pub lookup_predicate : String → Option PredicateSpec
lookup_predicate i = find_id (λ (s : PredicateSpec). s.id) i predicates

unfoldable pub lookup_action : String → Option ActionSpec
lookup_action i = find_id (λ (s : ActionSpec). s.id) i actions

-- The kinds that the blueprint lacks; the source lists their names.
unfoldable pub missing : List ℕ → Blueprint → List ℕ
missing needs b = keep (λ k. not (has b k)) needs
