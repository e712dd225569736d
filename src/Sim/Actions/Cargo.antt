-- ===== src/Sim/Actions/Cargo.antt =====
-- Cargo: `pickUp`, `deposit` and `drop` of internal/sim/tick.go.
use robocolony.Common.{Option, ℕ, ◌+◌, ◌||◌, not, ltb, ◌==◌}
use robocolony.Common.{if◌then◌else◌, none, some, modify}
use robocolony.Common.{remove_at}
use robocolony.Sim.Grid.{chebyshev}
use robocolony.Sim.Catalogue.{kind_manipulator, variant_none}
use robocolony.Sim.Blueprint.{has}
use robocolony.Sim.World.Inventory.{increment}
use robocolony.Sim.World.State.{LooseComponent, World, Robot, Base, Event}
use robocolony.Sim.World.State.{event_deposit}
use robocolony.Sim.World.Access.{put, base_of, emit}
use robocolony.Sim.World.Access.{drop_at, interact_range}
use robocolony.Sim.Perception.{component_in_reach}

abbrev pub deposit_event : Robot → Event
deposit_event r = record {
  tick = 0;
  kind = event_deposit;
  colony = r.colony;
  robot = r.id;
  blueprint = r.blueprint.id;
  attacker = 0;
  attacker_colony = 0;
}

-- What a deposit does to the base: one more of the variant, and one more collected.
abbrev pub receive : ℕ → Base → Base
receive v b = record b {
  inventory = increment b.inventory v;
  stats = let s = b.stats in record s { collected = s.collected + 1 };
}

module _ {G : Type 0} where
  -- The component that is in reach goes into the cargo slot and leaves the ground.
  unfoldable pub take_component : World G → ℕ → Robot → Option (ℕ × LooseComponent) → World G
  take_component w i r none = w
  take_component w i r (some (j, l)) =
      let w' = put w i (record r { cargo = l.variant }) in
      record w' { loose = remove_at w'.loose j }

  unfoldable pub pick_up : World G → ℕ → Robot → World G
  pick_up w i r =
      if not (has r.blueprint kind_manipulator) || not (r.cargo == variant_none)
      then w
      else take_component w i r (component_in_reach w r)

  -- The cargo goes into the base, if the robot is within reach of it.
  unfoldable pub bank : World G → ℕ → Robot → Option (ℕ × Base) → World G
  bank w i r none = w
  bank w i r (some (k, b)) =
      if ltb interact_range (chebyshev r.coord b.coord)
      then w
      else let w1 = record w { bases = modify w.bases k (receive r.cargo) } in
        emit (put w1 i (record r { cargo = variant_none })) (deposit_event r)

  unfoldable pub deposit : World G → ℕ → Robot → World G
  deposit w i r =
      if not (has r.blueprint kind_manipulator) || r.cargo == variant_none
      then w
      else bank w i r (base_of w r.colony)

  unfoldable pub drop : World G → ℕ → Robot → World G
  drop w i r =
      if r.cargo == variant_none
      then w
      else put (drop_at w r.coord r.cargo) i (record r { cargo = variant_none })
