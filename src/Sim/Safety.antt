-- ===== src/Sim/Safety.antt =====
-- Robots stay on cells that they may enter, and within the ranges of their fields, whatever the
-- controllers decide.
pub mod Actions
pub mod Step
use robocolony.Common.{
  ℕ, zero, suc, ◌+◌, ◌-◌, ◌≤◌, ◌<◌, ◌≡◌, refl, ◌∙◌, sym, Bool, true, false, not, arith, inl, inr,
}
use robocolony.Common.{
  List, [], ◌∷◌, ◌++◌, Option, none, some, length, set, modify, All, All-set, All-modify,
  All-append,
}
use robocolony.Common.{
  All-keep, All-get, map, Bool-cases, Option-cases, get_elem?, length-set, ◌||◌, subst, leb, max,
  pos, negsuc,
}
use robocolony.Sim.Grid.{Coord, turn, eq_coord, add, delta, heading_to, heading_count}
use robocolony.Sim.Grid.Facing.{turn_action, heading_to-lt}
use robocolony.Sim.Blueprint.{Blueprint, locomotion_of, starting_health}
use robocolony.Sim.Terrain.{enters, open_ground}
use robocolony.Sim.World.State.{
  World, Robot, Base, Stats, MemPoint, Event, MemWrite, Action, ActionKind, Signal, Rng,
}
use robocolony.Sim.World.Access.{
  inside, at, index, passable, put, update, emit, drop_at, update_stats, is_destroyed, allocate_id,
  base_of,
}

-- The cells, heading, health and slots of a robot are in range; the robot may stand where it is.
pub record RobotOk {G : Type 0} (o : World G) (r : Robot) : Type 0 where
  pub stands : passable o r.coord (locomotion_of r.blueprint) ≡ true
  pub facing : r.heading < 8
  pub healthy : r.health ≤ starting_health r.blueprint
  pub registers : length r.memory ≡ 3
  pub slots : length r.weapon_cooldown ≡ 2

-- A base stands on a cell that every locomotion may enter.
abbrev pub BaseOk : {G : Type 0} → World G → Base → Type 0
BaseOk o b = (locomotion : ℕ) → passable o b.coord locomotion ≡ true

-- The map is that of the world `o`, and robots and bases are well placed on it.
pub record IsSafe {G : Type 0} (o w : World G) : Type 0 where
  pub width : w.width ≡ o.width
  pub height : w.height ≡ o.height
  pub cells : w.cells ≡ o.cells
  pub robots : All (RobotOk o) w.robots
  pub bases : All (BaseOk o) w.bases

-- What holds throughout a tick: the world is safe, and its clock is that of `o` as well.
pub record Holds {G : Type 0} (o w : World G) : Type 0 where
  pub width : w.width ≡ o.width
  pub height : w.height ≡ o.height
  pub cells : w.cells ≡ o.cells
  pub robots : All (RobotOk o) w.robots
  pub bases : All (BaseOk o) w.bases
  pub tick : w.tick ≡ o.tick
  pub duration : w.duration ≡ o.duration

module _ {G : Type 0} {o : World G} where
  pub passable-Holds :
      {w : World G} → Holds o w → (c : Coord) (l : ℕ) → passable w c l ≡ passable o c l
  unfolding passable inside at index
  passable-Holds s c l = rw (s.width, s.height, s.cells) refl

  pub put-Holds : {w : World G} {r : Robot} (i : ℕ) → Holds o w → RobotOk o r → Holds o (put w i r)
  put-Holds {w} {r} i s k = record {
    width = s.width;
    height = s.height;
    cells = s.cells;
    robots = All-set (RobotOk o) w.robots i r s.robots k;
    bases = s.bases;
    tick = s.tick;
    duration = s.duration;
  }

  pub update-Holds :
      {w : World G} (i : ℕ) (f : Robot → Robot)
      → ((r : Robot) → RobotOk o r → RobotOk o (f r))
      → Holds o w
      → Holds o (update w i f)
  update-Holds {w} i f keeps s = record {
    width = s.width;
    height = s.height;
    cells = s.cells;
    robots = All-modify (RobotOk o) f keeps w.robots i s.robots;
    bases = s.bases;
    tick = s.tick;
    duration = s.duration;
  }

  -- Other fields of the world do not matter.
  pub reframe :
      {w w' : World G}
      → w'.width ≡ w.width
      → w'.height ≡ w.height
      → w'.cells ≡ w.cells
      → w'.robots ≡ w.robots
      → w'.bases ≡ w.bases
      → w'.tick ≡ w.tick
      → w'.duration ≡ w.duration
      → Holds o w
      → Holds o w'
  reframe a b c d e f g s = record {
    width = a ∙ s.width;
    height = b ∙ s.height;
    cells = c ∙ s.cells;
    robots = subst (All (RobotOk o)) (sym d) s.robots;
    bases = subst (All (BaseOk o)) (sym e) s.bases;
    tick = f ∙ s.tick;
    duration = g ∙ s.duration;
  }

  pub bases-Holds :
      {w : World G} (bs : List Base)
      → All (BaseOk o) bs
      → Holds o w
      → Holds o (record w { bases = bs })
  bases-Holds bs h s = record {
    width = s.width;
    height = s.height;
    cells = s.cells;
    robots = s.robots;
    bases = h;
    tick = s.tick;
    duration = s.duration;
  }

  pub robots-Holds :
      {w : World G} (rs : List Robot)
      → All (RobotOk o) rs
      → Holds o w
      → Holds o (record w { robots = rs })
  robots-Holds rs h s = record {
    width = s.width;
    height = s.height;
    cells = s.cells;
    robots = h;
    bases = s.bases;
    tick = s.tick;
    duration = s.duration;
  }

  pub emit-Holds : {w : World G} (e : Event) → Holds o w → Holds o (emit w e)
  unfolding emit
  emit-Holds e s = reframe refl refl refl refl refl refl refl s

  pub drop_at-Holds : {w : World G} (c : Coord) (v : ℕ) → Holds o w → Holds o (drop_at w c v)
  unfolding drop_at allocate_id
  drop_at-Holds c v s = reframe refl refl refl refl refl refl refl s

  pub update_stats-Holds :
      {w : World G} (colony : ℕ) (f : Stats → Stats) → Holds o w → Holds o (update_stats w colony f)
  unfolding update_stats
  update_stats-Holds {w} colony f s = elim (Option-cases (base_of w colony)) [
    | inl e ↦ rw (e, update_stats) s
    | inr (k, e) ↦
        rw (e, update_stats)
          (bases-Holds _ (All-modify (BaseOk o) _ (λ b h. h) w.bases k.0 s.bases) s)
  ]
