-- ===== src/Sim/World/Access.antt =====
-- Reading and writing the world: the accessors of internal/sim/world.go, the lookups by colony and
-- id of internal/sim/tick.go, and `emit`, `dropAt`, `statsOf` and `hasRobots`.
pub mod Laws
use robocolony.Common.{
  ℕ, zero, suc, ◌+◌, ◌*◌, ◌%◌, ◌^◌, Bool, true, false, ◌&&◌, ◌||◌, leb, ltb, ◌==◌,
}
use robocolony.Common.{if◌then◌else◌, List, [], ◌∷◌, ◌++◌, Option, none, some, get_or, set, modify}
use robocolony.Common.{pos, pos_part, leb_ℤ, ltb_ℤ}
use robocolony.Sim.Grid.{Coord, chebyshev}
use robocolony.Sim.Terrain.{barrier, enters}
use robocolony.Sim.World.State.{World, Cell, Robot, Base, Stats, LooseComponent, Event}

abbrev pub mem_points : ℕ
mem_points = 3

abbrev pub interact_range : ℕ
interact_range = 1

-- A `uint64` counter wraps around.
abbrev pub next_u64 : ℕ → ℕ
next_u64 n = (n + 1) % 2 ^ 64

abbrev pub barrier_cell : Cell
barrier_cell = record { terrain = barrier }

module _ {G : Type 0} where
  -- `In`.
  unfoldable pub inside : World G → Coord → Bool
  inside w c =
      leb_ℤ (pos 0) c.x && leb_ℤ (pos 0) c.y && ltb_ℤ c.x (pos w.width) && ltb_ℤ c.y (pos w.height)

  -- The row-major offset of a cell of the arena; callers test that it is one.
  unfoldable pub index : World G → Coord → ℕ
  index w c = pos_part c.y * w.width + pos_part c.x

  -- `At`. The slice has `Width * Height` cells, so the read of a cell inside never misses.
  unfoldable pub at : World G → Coord → Cell
  at w c = if inside w c then get_or w.cells (index w c) barrier_cell else barrier_cell

  unfoldable pub set_terrain : World G → Coord → ℕ → World G
  set_terrain w c t =
      if inside w c
      then record w { cells = set w.cells (index w c) (record { terrain = t }) }
      else w

  unfoldable pub passable : World G → Coord → ℕ → Bool
  passable w c locomotion = inside w c && enters (at w c).terrain locomotion

  -- A write through the pointer to robot `i`, of a whole robot or of some fields.
  abbrev pub put : World G → ℕ → Robot → World G
  put w i r = record w { robots = set w.robots i r }

  abbrev pub update : World G → ℕ → (Robot → Robot) → World G
  update w i f = record w { robots = modify w.robots i f }

-- The first base of a colony, with its index.
unfoldable pub base_from : ℕ → ℕ → List Base → Option (ℕ × Base)
base_from colony i [] = none
base_from colony i (b ∷ bs) =
    if b.colony == colony then some (i, b) else base_from colony (suc i) bs

unfoldable pub robot_from : ℕ → List Robot → Option Robot
robot_from id [] = none
robot_from id (r ∷ rs) = if r.id == id then some r else robot_from id rs

unfoldable pub has_robots_in : ℕ → List Robot → Bool
has_robots_in colony [] = false
has_robots_in colony (r ∷ rs) = r.colony == colony || has_robots_in colony rs

module _ {G : Type 0} where
  unfoldable pub base_of : World G → ℕ → Option (ℕ × Base)
  base_of w colony = base_from colony 0 w.bases

  unfoldable pub at_own_base : World G → Robot → Bool
  at_own_base w r = elim (base_of w r.colony) [
    | none ↦ false
    | some (i, b) ↦ leb (chebyshev r.coord b.coord) interact_range
  ]

  unfoldable pub robot_by_id : World G → ℕ → Option Robot
  robot_by_id w id = robot_from id w.robots

  unfoldable pub has_robots : World G → ℕ → Bool
  has_robots w colony = has_robots_in colony w.robots

  -- A write through the pointer of `statsOf`; a colony with no base has none.
  unfoldable pub update_stats : World G → ℕ → (Stats → Stats) → World G
  update_stats w colony f = elim (base_of w colony) [
    | none ↦ w
    | some (i, b) ↦ record w {
      bases = modify w.bases i (λ (b : Base). record b { stats = f b.stats });
    }
  ]

  -- `emit`, which stamps the event with the current tick.
  unfoldable pub emit : World G → Event → World G
  emit w e = record w { events = w.events ++ record e { tick = w.tick } ∷ [] }

  -- `NextID` as a state change; the id is the new value of the counter.
  unfoldable pub allocate_id : World G → World G
  allocate_id w = record w { next_id = w.next_id + 1 }

  unfoldable pub drop_at : World G → Coord → ℕ → World G
  drop_at w c v =
      let w' = allocate_id w in
      record w' { loose = w'.loose ++ record { id = w'.next_id; coord = c; variant = v } ∷ [] }

  -- `Ended`.
  unfoldable pub ended : World G → Bool
  ended w = ltb 0 w.duration && leb w.duration w.tick

unfoldable pub is_destroyed : Robot → Bool
is_destroyed r = leb r.health 0
