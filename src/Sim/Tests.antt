-- ===== src/Sim/Tests.antt =====
-- A small world for the tests: three by three open cells, a base and a robot of colony 1 with a
-- manipulator and a laser, a robot of colony 2 beside it, and a radar on the ground.
use robocolony.Common.{
  ℕ, suc, ◌+◌, ◌-◌, ◌%◌, ◌≡◌, ◌≢◌, ◌≤◌, ◌<◌, refl, true, false, arith, List, [], ◌∷◌, none, some,
  if◌then◌else◌, ◌==◌, replicate, length,
}
use robocolony.Sim.Grid.Wrapped.{chebyshev_i64, wrap_i64, abs_i64}
use robocolony.Common.{◌^◌, ◌≤ℤ◌, abs, ℤ, pos, negsuc, ◌+ℤ◌, ◌-ℤ◌, map, IsOrdered}
use mathlib.Core.List.{Perm}
use robocolony.Sim.Grid.{Coord, chebyshev, add, delta, turn, heading_to, origin}
use robocolony.Sim.Grid.Distance.{IsNear, chebyshev_metric, chebyshev-add-delta}
use robocolony.Sim.Grid.Facing.{turn_action, heading_to-add}
use robocolony.Sim.Catalogue.{
  tracks, medium_armor, heavy_armor, manipulator, laser, parts_radar, variant_none,
}
use robocolony.Sim.Terrain.{enters, terrain_spec, open_ground, sand}
use robocolony.Sim.Catalogue.{is_kind, kind, lookup, armor_health}
use robocolony.Sim.Blueprint.{starting_health, armor_sum, Blueprint, no_blueprint, validate}
use robocolony.Sim.Speed.{
  speed_on, effective_speed, move_ticks, build_ticks, turn_ticks, speed_scale,
}
use robocolony.Sim.Speed.Bounds.{Modifies, move_ticks_bounds, speed_on_antitone, speed_on-terrain}
use robocolony.Sim.World.State.{World, Robot, Base, Stats, Action, act_attack, Rng}
use robocolony.Sim.World.Access.{inside, index, at, passable}
use robocolony.Sim.World.Inventory.{InvEntry, count_of}
use robocolony.Sim.World.Inventory.Laws.{occurrences}
use robocolony.Sim.Actions.Apply.{apply}
use robocolony.Sim.Tick.{Controllers, step}
use robocolony.Sim.Production.{produce, covers}
use robocolony.Sim.Production.Covers.{covers_iff}
use robocolony.Sim.Blueprint.{locomotion_of, first_of_kind, mass, sum}
use robocolony.Sim.Blueprint.Validation.{IsConfigured, validate_iff}
use robocolony.Sim.Actions.Combat.{
  enemy_at, attack, aim, enemy_from, closer_target, shoot, ready_weapon, ready_from, fire, hit,
  credit_kill, loss_event,
}
use robocolony.Sim.Actions.Apply.{primary, write_all, broadcast}
use robocolony.Sim.World.Access.{is_destroyed, emit, update_stats, base_of, base_from}
use robocolony.Sim.Catalogue.{weapon_stats}
use robocolony.Sim.Blueprint.{weapons}
use robocolony.Sim.Actions.Combat.Target.{Best, enemy_at-Best}
use robocolony.Sim.Perception.{component_in_reach}
use robocolony.Sim.Perception.Nearest.{Picks, component_in_reach-Picks}
use robocolony.Common.{is_some}
use robocolony.Sim.World.State.{Sighting, sight_robot}
use robocolony.Sim.Perception.{sort_sightings}
use robocolony.Sim.Perception.Sorted.{IsBefore, sort_sightings-IsSorted}
use robocolony.Sim.Nav.{search, search_start}
use robocolony.Sim.Nav.Fuel.{path-search_total}
use robocolony.Sim.Score.{result_of, leaderboard}
use robocolony.Sim.Score.Order.{IsAhead, leaderboard-IsSorted}
use robocolony.Common.{◌*◌, ◌↔◌}
use robocolony.Sim.Safety.{IsSafe}
use robocolony.Sim.Safety.Step.{step-IsSafe}
use robocolony.Sim.Conservation.{census}
use robocolony.Sim.Conservation.Actions.{apply-census}
use robocolony.Sim.Conservation.Production.{produce-census}
use robocolony.Sim.Conservation.Step.{step-census}

-- A generator that counts its draws.
instance pub counter : Rng ℕ
counter = record { intn = λ g n. (g % n, suc g); intn-lt = λ g n h. grind arith }

abbrev cell : ℤ → ℤ → Coord
cell x y = record { x = x; y = y }

abbrev fighter : Blueprint
fighter = record {
  id = "b1";
  name = "fighter";
  program_id = "p";
  components = tracks ∷ medium_armor ∷ manipulator ∷ laser ∷ [];
}

abbrev robot : ℕ → ℕ → Coord → Robot
robot id colony c = record {
  id = id;
  colony = colony;
  coord = c;
  heading = 2;
  health = 5;
  cargo = variant_none;
  blueprint = fighter;
  program_id = "p";
  memory = replicate 3 (record { coord = origin; is_set = false });
  cooldown = 0;
  weapon_cooldown = 0 ∷ 0 ∷ [];
  path_blocked = false;
  target_reached = false;
  target_unreachable = false;
  recalled = false;
}

abbrev pub attacker : Robot
attacker = robot 1 1 (cell (pos 0) (pos 1))

abbrev zero_stats : Stats
zero_stats = record { collected = 0; losses = 0; kills = 0; ticks_active = 0 }

abbrev stocked : List InvEntry
stocked =
    record { variant = tracks; count = 1 }
    ∷ record { variant = medium_armor; count = 2 }
    ∷ record { variant = manipulator; count = 1 }
    ∷ record { variant = laser; count = 1 }
    ∷ []

abbrev home : Base
home = record {
  colony = 1;
  coord = cell (pos 0) (pos 0);
  inventory = stocked;
  blueprints = fighter ∷ [];
  build = record { blueprint = no_blueprint; ticks = 0 };
  stats = zero_stats;
  stalled = false;
}

abbrev pub world : World ℕ
world = record {
  width = 3;
  height = 3;
  cells = replicate 9 (record { terrain = open_ground });
  robots = attacker ∷ robot 2 2 (cell (pos 1) (pos 1)) ∷ [];
  bases = home ∷ [];
  loose = record { id = 3; coord = cell (pos 0) (pos 2); variant = parts_radar } ∷ [];
  tick = 0;
  seed = pos 7;
  duration = 100;
  signals = [];
  events = [];
  rng = 0;
  next_id = 3;
}

abbrev order_attack : Action
order_attack = record {
  kind = act_attack;
  coord = cell (pos 1) (pos 1);
  memory = [];
  broadcasts = [];
}

-- Robot 1 is told to attack its neighbour; the layer's state counts the decisions.
abbrev drill : Controllers ℕ
drill = record {
  control = λ c r. record {
    wipes = false;
    layer = c;
    decide = if r.id == 1 then some (λ view. (order_attack, suc c)) else none;
  };
  on_destroy = λ c id. c;
}

pub world-IsSafe : IsSafe world world
unfolding passable inside at index enters terrain_spec starting_health armor_sum is_kind kind lookup
    armor_health
world-IsSafe = record {
  width = refl;
  height = refl;
  cells = refl;
  robots = (
    record {
      stands = refl;
      facing = omega arith;
      healthy = omega arith;
      registers = refl;
      slots = refl;
    },
    (
      record {
        stands = refl;
        facing = omega arith;
        healthy = omega arith;
        registers = refl;
        slots = refl;
      },
      tt,
    ),
  );
  bases = (λ locomotion. refl, tt);
}

step-IsSafe_example : IsSafe world (step drill world 0).0
step-IsSafe_example = step-IsSafe drill world 0 world-IsSafe

real : parts_radar ≢ variant_none
real e = absurd (omega arith)

step-census_example : census parts_radar (step drill world 0).0 ≤ census parts_radar world
step-census_example = step-census parts_radar real drill world 0

apply-census_example :
    census parts_radar (apply world 0 attacker order_attack).0 ≡ census parts_radar world
apply-census_example = apply-census parts_radar real world 0 attacker order_attack refl

produce-census_example : census parts_radar (produce world 0 home) ≡ census parts_radar world
produce-census_example = produce-census parts_radar real world 0 home refl

covers_iff_example : (covers stocked fighter ≡ true) ↔ (
    (1 ≤ length fighter.components)
    × ((v : ℕ) → occurrences v fighter.components ≤ count_of stocked v))
covers_iff_example = covers_iff stocked fighter

validate_iff_example : (validate fighter ≡ none) ↔ IsConfigured fighter
validate_iff_example = validate_iff fighter

enemy_at-Best_example :
    Best 1 (cell (pos 1) (pos 1)) world.robots 2 (enemy_at world 1 (cell (pos 1) (pos 1)))
enemy_at-Best_example = enemy_at-Best world 1 (cell (pos 1) (pos 1))

component_in_reach-Picks_example :
    Picks attacker.coord world.loose (component_in_reach world attacker)
component_in_reach-Picks_example = component_in_reach-Picks world attacker

path-search_total_example :
    is_some (
      search world tracks
        (suc (suc (length world.cells)))
        (cell (pos 2) (pos 2))
        (search_start world tracks (cell (pos 0) (pos 0)) (cell (pos 2) (pos 2))))
    ≡ true
path-search_total_example =
    path-search_total world tracks refl (cell (pos 0) (pos 0)) (cell (pos 2) (pos 2))

abbrev seen : ℤ → ℕ → Sighting
seen id d = record {
  id = id;
  kind = sight_robot;
  coord = origin;
  variant = 0;
  colony = 2;
  distance = d;
}

sort_sightings-IsSorted_example :
    IsOrdered IsBefore (sort_sightings (seen (pos 4) 3 ∷ seen (pos 9) 1 ∷ seen (negsuc 1) 3 ∷ []))
    × Perm
        (sort_sightings (seen (pos 4) 3 ∷ seen (pos 9) 1 ∷ seen (negsuc 1) 3 ∷ []))
        (seen (pos 4) 3 ∷ seen (pos 9) 1 ∷ seen (negsuc 1) 3 ∷ [])
sort_sightings-IsSorted_example =
    sort_sightings-IsSorted (seen (pos 4) 3 ∷ seen (pos 9) 1 ∷ seen (negsuc 1) 3 ∷ [])

leaderboard-IsSorted_example :
    IsOrdered IsAhead (leaderboard world)
    × Perm (leaderboard world) (map (result_of world) world.bases)
leaderboard-IsSorted_example = leaderboard-IsSorted world

abbrev tank : Blueprint
tank = record fighter { components = tracks ∷ heavy_armor ∷ manipulator ∷ laser ∷ [] }

move_ticks_bounds_example :
    (speed_scale ≤ move_ticks fighter sand * speed_on fighter sand)
    × ((move_ticks fighter sand - 1) * speed_on fighter sand < speed_scale)
    × (1 ≤ move_ticks fighter sand)
    × (move_ticks fighter sand ≤ 12)
    × (1 ≤ turn_ticks fighter)
    × (turn_ticks fighter ≤ 4)
move_ticks_bounds_example = move_ticks_bounds fighter sand

same_locomotion : locomotion_of fighter ≡ locomotion_of tank
unfolding locomotion_of first_of_kind is_kind kind lookup
same_locomotion = refl

lighter : mass fighter ≤ mass tank
unfolding mass sum lookup
lighter = omega arith

speed_on_antitone_example :
    (speed_on tank sand ≤ speed_on fighter sand)
    × (move_ticks fighter sand ≤ move_ticks tank sand)
    × (build_ticks fighter ≤ build_ticks tank)
speed_on_antitone_example = speed_on_antitone fighter tank sand same_locomotion lighter

speed_on-terrain_example :
    (effective_speed fighter ≤ speed_on fighter sand)
    × (speed_on fighter sand ≤ effective_speed fighter + 4)
    × Modifies fighter sand
speed_on-terrain_example = speed_on-terrain fighter sand

-- The difference of these two is the least number of 64 bits, which has no absolute value there.
wrapped_distance : chebyshev_i64 (cell (negsuc (2 ^ 63 - 1)) (pos 0)) origin ≡ pos 0
unfolding chebyshev_i64 abs_i64 wrap_i64 ◌-ℤ◌
wrapped_distance = refl

near : (a : Coord) → abs a.x < 2 ^ 61 → abs a.y < 2 ^ 61 → IsNear a
near a h k = record { near_x = h; near_y = k }

chebyshev_metric_example :
    (chebyshev_i64 (cell (pos 0) (pos 1)) (cell (pos 2) (pos 2))
      ≡ pos (chebyshev (cell (pos 0) (pos 1)) (cell (pos 2) (pos 2))))
    × (chebyshev_i64 (cell (pos 0) (pos 1)) (cell (pos 2) (pos 2))
        ≡ chebyshev_i64 (cell (pos 2) (pos 2)) (cell (pos 0) (pos 1)))
    × (chebyshev_i64 (cell (pos 0) (pos 1)) (cell (negsuc 3) (pos 0))
        ≤ℤ wrap_i64 (
            chebyshev_i64 (cell (pos 0) (pos 1)) (cell (pos 2) (pos 2))
            +ℤ chebyshev_i64 (cell (pos 2) (pos 2)) (cell (negsuc 3) (pos 0))))
    × ((chebyshev_i64 (cell (pos 0) (pos 1)) (cell (pos 2) (pos 2)) ≡ pos 0)
        ↔ (cell (pos 0) (pos 1) ≡ cell (pos 2) (pos 2)))
chebyshev_metric_example =
    chebyshev_metric (cell (pos 0) (pos 1)) (cell (pos 2) (pos 2)) (cell (negsuc 3) (pos 0))
      (near _ (omega arith) (omega arith)) (near _ (omega arith) (omega arith))
      (near _ (omega arith) (omega arith))

chebyshev-add-delta_example :
    chebyshev (cell (pos 4) (pos 1)) (add (cell (pos 4) (pos 1)) (delta 7)) ≡ 1
chebyshev-add-delta_example = chebyshev-add-delta (cell (pos 4) (pos 1)) 7 (omega arith)

turn_action_example :
    (turn 6 (pos 3) < 8) × (turn (turn 6 (pos 3)) (negsuc 1) ≡ turn 6 (pos 3 +ℤ negsuc 1))
turn_action_example = turn_action 6 (pos 3) (negsuc 1)

heading_to-add_example :
    heading_to (cell (pos 4) (pos 1)) (add (cell (pos 4) (pos 1)) (delta 3)) ≡ 3
heading_to-add_example = heading_to-add (cell (pos 4) (pos 1)) 3 (omega arith)

-- Robot 1's attack hits: the draw is 0, and the laser's damage is above the health left.
attack_test :
    map (λ (r : Robot). r.health) (apply world 0 attacker order_attack).0.robots ≡ 5 ∷ 0 ∷ []
unfolding apply primary attack aim enemy_at enemy_from closer_target shoot ready_weapon ready_from
    fire hit credit_kill loss_event write_all broadcast chebyshev weapons is_kind kind lookup
    weapon_stats is_destroyed emit update_stats base_of base_from counter ◌-ℤ◌
attack_test = refl
