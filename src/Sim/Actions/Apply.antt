-- ===== src/Sim/Actions/Apply.antt =====
-- The dispatch on the primary action and the zero-tick effects: `apply` and `primary` of
-- internal/sim/tick.go.
use robocolony.Common.{ℕ, ◌-◌, max, true, false, ◌||◌}
use robocolony.Common.{if◌then◌else◌, List, [], ◌∷◌, map, set}
use robocolony.Common.{pos, negsuc, pos_part, ltb_ℤ, leb_ℤ}
use robocolony.Sim.Grid.{origin, add, delta, turn, heading_count}
use robocolony.Sim.Speed.{turn_ticks, idle_ticks, interact_ticks}
use robocolony.Sim.World.State.{World, Robot, MemPoint, MemWrite, Signal, SignalKind}
use robocolony.Sim.World.State.{Action, Rng}
use robocolony.Sim.World.State.{
  act_none, act_move_forward, act_turn_left, act_turn_right, act_stop, act_move_to, act_pick_up,
  act_deposit, act_drop, act_turn_random, act_attack,
}
use robocolony.Sim.World.Access.{put, update}
use robocolony.Sim.World.Access.{mem_points}
use robocolony.Sim.Actions.Move.{step_to, move_to}
use robocolony.Sim.Actions.Combat.{attack}
use robocolony.Sim.Actions.Cargo.{pick_up, deposit, drop}

abbrev pub unset_point : MemPoint
unset_point = record { coord = origin; is_set = false }

-- One round of the loop over `Action.Memory`.
unfoldable pub write_memory : List MemPoint → MemWrite → List MemPoint
write_memory memory m =
    if ltb_ℤ m.point (pos 0) || leb_ℤ (pos mem_points) m.point
    then memory
    else if m.clear
    then set memory (pos_part m.point) unset_point
    else set memory (pos_part m.point) (record { coord = m.coord; is_set = true })

unfoldable pub write_all : List MemPoint → List MemWrite → List MemPoint
write_all memory [] = memory
write_all memory (m ∷ ms) = write_all (write_memory memory m) ms

abbrev pub broadcast : Robot → SignalKind → Signal
broadcast r k = record { kind = k; from = r.id; colony = r.colony; coord = r.coord }

module _ {G : Type 0} ⦃g : Rng G⦄ where
  -- The world after the action, and its cost in ticks.
  unfoldable pub primary : World G → ℕ → Robot → Action → World G × ℕ
  primary w i r a = elim a.kind [
    | act_move_forward ↦ step_to w i r (add r.coord (delta r.heading))
    | act_turn_left ↦
        (put w i (record r { heading = turn r.heading (negsuc 0) }), turn_ticks r.blueprint)
    | act_turn_right ↦
        (put w i (record r { heading = turn r.heading (pos 1) }), turn_ticks r.blueprint)
    | act_turn_random ↦
        let (h, rng) = g.intn w.rng heading_count in
        let w' = record w { rng = rng } in
        (put w' i (record r { heading = h }), turn_ticks r.blueprint)
    | act_move_to ↦ move_to w i r a.coord
    | act_attack ↦ attack w i r a.coord
    | act_pick_up ↦ (pick_up w i r, interact_ticks)
    | act_deposit ↦ (deposit w i r, interact_ticks)
    | act_drop ↦ (drop w i r, interact_ticks)
    | act_none ↦ (w, idle_ticks)
    | act_stop ↦ (w, idle_ticks)
  ]

  -- The world after the action, and the signals that were sent.
  unfoldable pub apply : World G → ℕ → Robot → Action → World G × List Signal
  apply w i r a =
      let r' = record r { memory = write_all r.memory a.memory } in
      let (w', cost) = primary (put w i r') i r' a in
      (
        update w' i (λ (s : Robot). record s { cooldown = max 1 cost - 1 }),
        map (broadcast r') a.broadcasts,
      )
