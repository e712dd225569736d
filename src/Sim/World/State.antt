-- ===== src/Sim/World/State.antt =====
-- The records of the state, of a robot's view and of its actions.
use robocolony.Common.{ℕ, ◌<◌, List, Bool, String, ℤ}
use robocolony.Sim.Grid.{Coord}
use robocolony.Sim.Blueprint.{Blueprint}
use robocolony.Sim.World.Inventory.{InvEntry}

pub record Cell : Type 0 where
  pub terrain : ℕ

-- A coordinate register; `is_set` is the field `Set`.
pub record MemPoint : Type 0 where
  pub coord : Coord
  pub is_set : Bool

-- Health and cooldowns are never negative in the source: each subtraction is guarded or clamped.
pub record Robot : Type 0 where
  pub id : ℕ
  pub colony : ℕ
  pub coord : Coord
  pub heading : ℕ
  pub health : ℕ
  pub cargo : ℕ
  pub blueprint : Blueprint
  pub program_id : String
  pub memory : List MemPoint
  pub cooldown : ℕ
  pub weapon_cooldown : List ℕ
  pub path_blocked : Bool
  pub target_reached : Bool
  pub target_unreachable : Bool
  pub recalled : Bool

pub record Stats : Type 0 where
  pub collected : ℕ
  pub losses : ℕ
  pub kills : ℕ
  pub ticks_active : ℕ

pub record BuildOrder : Type 0 where
  pub blueprint : Blueprint
  pub ticks : ℕ

pub record Base : Type 0 where
  pub colony : ℕ
  pub coord : Coord
  pub inventory : List InvEntry
  pub blueprints : List Blueprint
  pub build : BuildOrder
  pub stats : Stats
  pub stalled : Bool

pub record LooseComponent : Type 0 where
  pub id : ℕ
  pub coord : Coord
  pub variant : ℕ

pub data SignalKind : Type 0 where
  come_here avoid_here : SignalKind

pub record Signal : Type 0 where
  pub kind : SignalKind
  pub from : ℕ
  pub colony : ℕ
  pub coord : Coord

pub data EventKind : Type 0 where
  event_loss event_build event_deposit event_idle : EventKind

pub record Event : Type 0 where
  pub tick : ℕ
  pub kind : EventKind
  pub colony : ℕ
  pub robot : ℕ
  pub blueprint : String
  pub attacker : ℕ
  pub attacker_colony : ℕ

-- `*rand.Rand` of Go's standard library, seen from outside: a draw yields a number below its
-- bound and the next state.
pub record Rng (G : Type 0) : Type 0 where
  pub intn : G → ℕ → ℕ × G
  pub intn-lt : (g : G) (n : ℕ) → 0 < n → (intn g n).0 < n

-- `Control` and `OnDestroy` are arguments of the tick, not state; see Sim/Tick.antt.
pub record World (G : Type 0) : Type 0 where
  pub width : ℕ
  pub height : ℕ
  pub cells : List Cell
  pub robots : List Robot
  pub bases : List Base
  pub loose : List LooseComponent
  pub tick : ℕ
  pub seed : ℤ
  pub duration : ℕ
  pub signals : List Signal
  pub events : List Event
  pub rng : G
  pub next_id : ℕ

pub data ActionKind : Type 0 where
  act_none act_move_forward act_turn_left act_turn_right act_stop act_move_to act_pick_up :
      ActionKind
  act_deposit act_drop act_turn_random act_attack : ActionKind

-- A write to a coordinate register, cleared or set; the index may be out of range.
pub record MemWrite : Type 0 where
  pub point : ℤ
  pub coord : Coord
  pub clear : Bool

pub record Action : Type 0 where
  pub kind : ActionKind
  pub coord : Coord
  pub memory : List MemWrite
  pub broadcasts : List SignalKind

pub data SightingKind : Type 0 where
  sight_component sight_robot sight_base : SightingKind

-- The id is an integer, since that of a base is negative.
pub record Sighting : Type 0 where
  pub id : ℤ
  pub kind : SightingKind
  pub coord : Coord
  pub variant : ℕ
  pub colony : ℕ
  pub distance : ℕ

pub record RobotView : Type 0 where
  pub tick : ℕ
  pub id : ℕ
  pub colony : ℕ
  pub coord : Coord
  pub heading : ℕ
  pub health : ℕ
  pub cargo : ℕ
  pub blueprint : Blueprint
  pub base : Coord
  pub has_base : Bool
  pub memory : List MemPoint
  pub visible_components : List Sighting
  pub visible_enemies : List Sighting
  pub radar_targets : List Sighting
  pub signals : List Signal
  pub weapon_ready : Bool
  pub weapon_range : ℕ
  pub obstacle_ahead : Bool
  pub component_in_reach : Bool
  pub at_base : Bool
  pub path_blocked : Bool
  pub target_reached : Bool
  pub target_unreachable : Bool
