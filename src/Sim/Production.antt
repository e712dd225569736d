-- ===== src/Sim/Production.antt =====
-- Base production: `covers`, `produce`, `spawn` and `IdleReason` of internal/sim/tick.go.
pub mod Covers
use robocolony.Common.{ℕ, ◌-◌, Bool, true, false, ltb, ◌==◌, if◌then◌else◌}
use robocolony.Common.{List, [], ◌∷◌, ◌++◌, keep, length, get_or, set, replicate}
use robocolony.Sim.Grid.{heading_count}
use robocolony.Sim.Catalogue.{variant_none, max_weapons}
use robocolony.Sim.Blueprint.{Blueprint, no_blueprint, starting_health}
use robocolony.Sim.Speed.{build_ticks}
use robocolony.Sim.World.Inventory.{InvEntry, count_of, increment, consume}
use robocolony.Sim.World.State.{World, Robot, Base, BuildOrder, Event, event_build, event_idle, Rng}
use robocolony.Sim.World.Access.{allocate_id, emit, mem_points}
use robocolony.Sim.Actions.Apply.{unset_point}

-- The loop of `covers`, with the map `used` so far.
unfoldable pub covers_from : List InvEntry → List InvEntry → List ℕ → Bool
covers_from inv used [] = true
covers_from inv used (v ∷ vs) =
    let used' = increment used v in
    let rest = covers_from inv used' vs in
    if ltb (count_of inv v) (count_of used' v) then false else rest

unfoldable pub covers : List InvEntry → Blueprint → Bool
covers inv bp = if length bp.components == 0 then false else covers_from inv [] bp.components

abbrev pub idle_build : BuildOrder
idle_build = record { blueprint = no_blueprint; ticks = 0 }

abbrev pub build_event : Base → Robot → Event
build_event b r = record {
  tick = 0;
  kind = event_build;
  colony = b.colony;
  robot = r.id;
  blueprint = r.blueprint.id;
  attacker = 0;
  attacker_colony = 0;
}

abbrev pub idle_event : Base → Event
idle_event b = record {
  tick = 0;
  kind = event_idle;
  colony = b.colony;
  robot = 0;
  blueprint = "";
  attacker = 0;
  attacker_colony = 0;
}

-- The robot that a base releases, with its id and heading.
abbrev pub new_robot : ℕ → ℕ → Base → Blueprint → Robot
new_robot id heading b bp = record {
  id = id;
  colony = b.colony;
  coord = b.coord;
  heading = heading;
  health = starting_health bp;
  cargo = variant_none;
  blueprint = bp;
  program_id = bp.program_id;
  memory = replicate mem_points unset_point;
  cooldown = 0;
  weapon_cooldown = replicate max_weapons 0;
  path_blocked = false;
  target_reached = false;
  target_unreachable = false;
  recalled = false;
}

abbrev pub put_base : {G : Type 0} → World G → ℕ → Base → World G
put_base w k b = record w { bases = set w.bases k b }

-- The reasons of `IdleReason`; the empty string, while the base assembles, is `none`.
pub data IdleReason : Type 0 where
  assembling no_approved not_covered : IdleReason

unfoldable pub idle_reason : Base → IdleReason
idle_reason b =
    if ltb 0 b.build.ticks
    then assembling
    else if length b.blueprints == 0
    then no_approved
    else not_covered

abbrev pub buildable : Base → List Blueprint
buildable b = keep (covers b.inventory) b.blueprints

module _ {G : Type 0} ⦃g : Rng G⦄ where
  unfoldable pub spawn : World G → Base → Blueprint → World G
  spawn w b bp =
      let w1 = allocate_id w in
      let (heading, rng) = g.intn w1.rng heading_count in
      let r = new_robot w1.next_id heading b bp in
      let w2 = record w1 { rng = rng; robots = w1.robots ++ r ∷ [] } in emit w2 (build_event b r)

  -- The base that is assembling: one tick less, and the release when none is left.
  unfoldable pub advance_build : World G → ℕ → Base → World G
  advance_build w k b =
      let ticks = b.build.ticks - 1 in
      if ticks == 0
      then spawn (put_base w k (record b { stalled = false; build = idle_build })) b
          b.build.blueprint
      else put_base w k (record b {
        stalled = false;
        build = record { blueprint = b.build.blueprint; ticks = ticks };
      })

  -- The blueprints that the inventory covers: none, and the base waits, or a choice among them.
  unfoldable pub launch : World G → ℕ → Base → List Blueprint → World G
  launch w k b [] =
      if b.stalled then w else emit (put_base w k (record b { stalled = true })) (idle_event b)
  launch w k b (first ∷ rest) =
      let (i, rng) = g.intn w.rng (length (first ∷ rest)) in
      let bp = get_or (first ∷ rest) i first in
      put_base (record w { rng = rng }) k
        (record b {
          stalled = false;
          inventory = consume b.inventory bp.components;
          build = record { blueprint = bp; ticks = build_ticks bp };
        })

  unfoldable pub start_build : World G → ℕ → Base → World G
  start_build w k b = launch w k b (buildable b)

  -- `produce`, of the base with index `k`.
  unfoldable pub produce : World G → ℕ → Base → World G
  produce w k b = if ltb 0 b.build.ticks then advance_build w k b else start_build w k b
