-- ===== src/Sim/Actions/Move.antt =====
-- Movement: `recallAction`, `step` and `moveTo` of internal/sim/tick.go. A handler takes the index
-- of the robot and its value, which stand for the pointer, and writes the robot back by the index.
use robocolony.Common.{List, ℕ, true, false, not}
use robocolony.Common.{if◌then◌else◌, [], ◌∷◌, none, some}
use robocolony.Sim.Grid.{Coord, origin, eq_coord, heading_to}
use robocolony.Sim.Blueprint.{locomotion_of}
use robocolony.Sim.Speed.{move_ticks, idle_ticks}
use robocolony.Sim.World.State.{World, Robot}
use robocolony.Sim.World.State.{Action, ActionKind}
use robocolony.Sim.World.State.{act_stop, act_move_to}
use robocolony.Sim.World.Access.{at, passable, put, update, base_of, at_own_base}
use robocolony.Sim.Nav.{path}

abbrev pub plain : ActionKind → Action
plain k = record { kind = k; coord = origin; memory = []; broadcasts = [] }

abbrev pub move_to_action : Coord → Action
move_to_action c = record { kind = act_move_to; coord = c; memory = []; broadcasts = [] }

module _ {G : Type 0} where
  unfoldable pub recall_action : World G → Robot → Action
  recall_action w r = elim (base_of w r.colony) [
    | none ↦ plain act_stop
    | some (i, b) ↦ if at_own_base w r then plain act_stop else move_to_action b.coord
  ]

  -- `step`: one cell, or a refusal that raises `PathBlocked`.
  unfoldable pub step_to : World G → ℕ → Robot → Coord → World G × ℕ
  step_to w i r to =
      if not (passable w to (locomotion_of r.blueprint))
      then (put w i (record r { path_blocked = true }), idle_ticks)
      else (
        put w i (record r { coord = to; path_blocked = false }),
        move_ticks r.blueprint (at w to).terrain,
      )

  -- The end of `moveTo`, where there is a path: a step to its first cell.
  unfoldable pub follow : World G → ℕ → Robot → Coord → Coord → World G × ℕ
  follow w i r dest next =
      let (w', cost) = step_to w i (record r { heading = heading_to r.coord next }) next in
      (update w' i (λ (s : Robot). record s { target_reached = eq_coord s.coord dest }), cost)

  -- What `moveTo` does with the path that it found.
  unfoldable pub along : World G → ℕ → Robot → Coord → List Coord → World G × ℕ
  along w i r dest [] = (
    put w i (record r { target_reached = false; target_unreachable = true; path_blocked = true }),
    idle_ticks,
  )
  along w i r dest (next ∷ rest) =
      follow w i (record r { target_unreachable = false; target_reached = false }) dest next

  unfoldable pub move_to : World G → ℕ → Robot → Coord → World G × ℕ
  move_to w i r dest =
      if eq_coord r.coord dest
      then (put w i (record r { target_unreachable = false; target_reached = true }), idle_ticks)
      else along w i r dest (path w (locomotion_of r.blueprint) r.coord dest)
