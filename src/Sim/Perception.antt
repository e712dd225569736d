-- ===== src/Sim/Perception.antt =====
-- What a robot perceives: `inCone`, `look`, `radar` and their tables of internal/sim/nav.go,
-- `weaponry`, `componentInReach`, `signalRadius` and `View` of internal/sim/tick.go.
pub mod Nearest
pub mod Sorted
use robocolony.Common.{ℕ, suc, ◌/◌, max, Bool, true, false, ◌&&◌, ◌||◌, not, ltb, leb}
use robocolony.Common.{
  ◌==◌, if◌then◌else◌, List, [], ◌∷◌, Option, none, some, get_or, sort_by, keep, is_some,
}
use robocolony.Common.{ℤ, pos, negsuc, ◌+ℤ◌, ◌-ℤ◌, ◌*ℤ◌, leb_ℤ}
use robocolony.Sim.Grid.{Coord, origin, chebyshev, add, delta}
use robocolony.Sim.Catalogue.{parts_radar, enemy_radar, base_radar, is_kind, kind_radar}
use robocolony.Sim.Catalogue.{weapon_stats, max_weapons, variant_none}
use robocolony.Sim.Blueprint.{weapons, locomotion_of}
use robocolony.Sim.World.State.{World, Robot, Base, LooseComponent, Sighting, Signal, RobotView}
use robocolony.Sim.World.State.{sight_component, sight_robot, sight_base}
use robocolony.Sim.World.Access.{passable, base_of, at_own_base, is_destroyed, interact_range}

abbrev pub vision_range : ℕ
vision_range = 6

abbrev pub vision_cos_sq_num : ℕ
vision_cos_sq_num = 1

abbrev pub vision_cos_sq_den : ℕ
vision_cos_sq_den = 2

abbrev pub radar_range_cells : ℕ
radar_range_cells = 16

abbrev pub base_radar_range : ℕ
base_radar_range = 28

abbrev pub signal_radius_divisor : ℕ
signal_radius_divisor = 2

-- The test on the offset `d` of the target and the heading's vector `hd`.
unfoldable pub in_wedge : Coord → Coord → Bool
in_wedge d hd =
    let dot = d.x *ℤ hd.x +ℤ d.y *ℤ hd.y in
    let dsq = d.x *ℤ d.x +ℤ d.y *ℤ d.y in
    let hsq = hd.x *ℤ hd.x +ℤ hd.y *ℤ hd.y in
    if leb_ℤ dot (pos 0)
    then false
    else leb_ℤ (dsq *ℤ hsq *ℤ pos vision_cos_sq_num) (dot *ℤ dot *ℤ pos vision_cos_sq_den)

-- `inCone`: the distance, and whether the target is seen.
unfoldable pub in_cone : Coord → ℕ → Coord → ℕ × Bool
in_cone from h to =
    let dist = chebyshev from to in
    if dist == 0 || ltb vision_range dist
    then (dist, false)
    else (dist, in_wedge (record { x = to.x -ℤ from.x; y = to.y -ℤ from.y }) (delta h))

abbrev pub le_sighting : Sighting → Sighting → Bool
le_sighting a b = ltb a.distance b.distance || (a.distance == b.distance) && leb_ℤ a.id b.id

unfoldable pub sort_sightings : List Sighting → List Sighting
sort_sightings = sort_by le_sighting

abbrev pub see_component : LooseComponent → ℕ → Sighting
see_component l d = record {
  id = pos l.id;
  kind = sight_component;
  coord = l.coord;
  variant = l.variant;
  colony = 0;
  distance = d;
}

abbrev pub see_robot : Robot → ℕ → Sighting
see_robot o d = record {
  id = pos o.id;
  kind = sight_robot;
  coord = o.coord;
  variant = variant_none;
  colony = o.colony;
  distance = d;
}

-- The id of an enemy base is -1 - colony.
abbrev pub base_sighting_id : ℕ → ℤ
base_sighting_id c = negsuc c

abbrev pub see_base : Base → ℕ → Sighting
see_base b d = record {
  id = base_sighting_id b.colony;
  kind = sight_base;
  coord = b.coord;
  variant = variant_none;
  colony = b.colony;
  distance = d;
}

-- The two loops of `look`.
unfoldable pub look_components : Robot → List LooseComponent → List Sighting
look_components r [] = []
look_components r (l ∷ ls) =
    let (d, seen) = in_cone r.coord r.heading l.coord in
    let rest = look_components r ls in if seen then see_component l d ∷ rest else rest

unfoldable pub look_enemies : Robot → List Robot → List Sighting
look_enemies r [] = []
look_enemies r (o ∷ os) =
    let (d, seen) = in_cone r.coord r.heading o.coord in
    let rest = look_enemies r os in
    if o.colony == r.colony || is_destroyed o
    then rest
    else if seen
    then see_robot o d ∷ rest
    else rest

-- `RadarRange`.
unfoldable pub radar_range : ℕ → Option ℕ
radar_range v =
    if v == parts_radar || v == enemy_radar
    then some radar_range_cells
    else if v == base_radar
    then some base_radar_range
    else none

-- The three loops of `radar`, one for each class of target.
unfoldable pub radar_components : Robot → ℕ → List LooseComponent → List Sighting
radar_components r rng [] = []
radar_components r rng (l ∷ ls) =
    let d = chebyshev r.coord l.coord in
    let rest = radar_components r rng ls in
    if ltb 0 d && leb d rng then see_component l d ∷ rest else rest

unfoldable pub radar_enemies : Robot → ℕ → List Robot → List Sighting
radar_enemies r rng [] = []
radar_enemies r rng (o ∷ os) =
    let d = chebyshev r.coord o.coord in
    let rest = radar_enemies r rng os in
    if o.colony == r.colony || is_destroyed o
    then rest
    else if ltb 0 d && leb d rng
    then see_robot o d ∷ rest
    else rest

unfoldable pub radar_bases : Robot → ℕ → List Base → List Sighting
radar_bases r rng [] = []
radar_bases r rng (b ∷ bs) =
    let d = chebyshev r.coord b.coord in
    let rest = radar_bases r rng bs in
    if b.colony == r.colony
    then rest
    else if ltb 0 d && leb d rng
    then see_base b d ∷ rest
    else rest

-- `weaponry`, from slot `i` on with the reach so far.
unfoldable pub weaponry_from : List ℕ → ℕ → List ℕ → Bool × ℕ → Bool × ℕ
weaponry_from cooldowns i [] acc = acc
weaponry_from cooldowns i (v ∷ vs) (ready, reach) =
    let rest = weaponry_from cooldowns (suc i) vs in
    if leb max_weapons i
    then (ready, reach)
    else rest (elim (weapon_stats v) [
      | none ↦ (ready, reach)
      | some spec ↦
          if ltb 0 (get_or cooldowns i 0) then (ready, reach) else (true, max reach spec.reach)
    ])

unfoldable pub weaponry : Robot → Bool × ℕ
weaponry r = weaponry_from r.weapon_cooldown 0 (weapons r.blueprint) (false, 0)

-- The body of the loop of `componentInReach`: the component with index `i` at distance `d` against
-- the best so far.
unfoldable pub nearer :
    ℕ → LooseComponent → ℕ → Option (ℕ × LooseComponent × ℕ) → Option (ℕ × LooseComponent × ℕ)
nearer i l d best = if ltb interact_range d then best else elim best [
  | none ↦ some (i, l, d)
  | some (j, b, best_dist) ↦
      if ltb d best_dist || (d == best_dist) && ltb l.id b.id
      then some (i, l, d)
      else some (j, b, best_dist)
]

unfoldable pub nearest_from :
    Coord
    → ℕ
    → List LooseComponent
    → Option (ℕ × LooseComponent × ℕ)
    → Option (ℕ × LooseComponent × ℕ)
nearest_from c i [] best = best
nearest_from c i (l ∷ ls) best = nearest_from c (suc i) ls (nearer i l (chebyshev c l.coord) best)

abbrev pub without_distance : Option (ℕ × LooseComponent × ℕ) → Option (ℕ × LooseComponent)
without_distance none = none
without_distance (some (i, l, d)) = some (i, l)

-- The signals of the inbox that the robot hears.
abbrev pub hears : ℕ → Robot → Signal → Bool
hears radius r s =
    (s.colony == r.colony) && not (s.from == r.id) && leb (chebyshev s.coord r.coord) radius

abbrev base_coord : Option (ℕ × Base) → Coord
base_coord none = origin
base_coord (some (i, b)) = b.coord

module _ {G : Type 0} where
  unfoldable pub look : World G → Robot → List Sighting × List Sighting
  look w r = (sort_sightings (look_components r w.loose), sort_sightings (look_enemies r w.robots))

  unfoldable pub radar_report : World G → Robot → ℕ → List Sighting
  radar_report w r v = elim (radar_range v) [
    | none ↦ []
    | some rng ↦
        if v == parts_radar
        then radar_components r rng w.loose
        else if v == enemy_radar
        then radar_enemies r rng w.robots
        else if v == base_radar
        then radar_bases r rng w.bases
        else []
  ]

  -- Only the first radar of the blueprint reports.
  unfoldable pub radar_scan : World G → Robot → List ℕ → List Sighting
  radar_scan w r [] = []
  radar_scan w r (v ∷ vs) =
      if not (is_kind kind_radar v) then radar_scan w r vs else radar_report w r v

  unfoldable pub radar : World G → Robot → List Sighting
  radar w r = sort_sightings (radar_scan w r r.blueprint.components)

  -- The index of the component in the world's list, and the component.
  unfoldable pub component_in_reach : World G → Robot → Option (ℕ × LooseComponent)
  component_in_reach w r = without_distance (nearest_from r.coord 0 w.loose none)

  unfoldable pub signal_radius : World G → ℕ
  signal_radius w = max w.width w.height / signal_radius_divisor

  unfoldable pub view : World G → Robot → List Signal → RobotView
  view w r inbox =
      let (components, enemies) = look w r in
      let (ready, reach) = weaponry r in
      record {
        tick = w.tick;
        id = r.id;
        colony = r.colony;
        coord = r.coord;
        heading = r.heading;
        health = r.health;
        cargo = r.cargo;
        blueprint = r.blueprint;
        base = base_coord (base_of w r.colony);
        has_base = is_some (base_of w r.colony);
        memory = r.memory;
        visible_components = components;
        visible_enemies = enemies;
        radar_targets = radar w r;
        signals = keep (hears (signal_radius w) r) inbox;
        weapon_ready = ready;
        weapon_range = reach;
        obstacle_ahead =
            not (passable w (add r.coord (delta r.heading)) (locomotion_of r.blueprint));
        component_in_reach = is_some (component_in_reach w r);
        at_base = at_own_base w r;
        path_blocked = r.path_blocked;
        target_reached = r.target_reached;
        target_unreachable = r.target_unreachable;
      }
