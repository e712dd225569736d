-- ===== src/Sim/Terrain.antt =====
-- Terrain classes and the traversal matrix of internal/sim/world.go.
use robocolony.Common.{ℕ, Bool, true, false, ◌||◌, not, List, [], ◌∷◌, Option, none, some, ◌==◌}
use robocolony.Common.{if◌then◌else◌, String}
use robocolony.Sim.Catalogue.{tracks, legs, find_row}

-- `Terrain` is a byte; the classes are 0 to 3.
abbrev pub open_ground : ℕ
open_ground = 0

abbrev pub barrier : ℕ
barrier = 1

abbrev pub rubble : ℕ
rubble = 2

abbrev pub sand : ℕ
sand = 3

pub record TerrainSpec : Type 0 where
  pub terrain : ℕ
  pub name : String
  pub hard_barrier : Bool
  pub impassable : List ℕ
  pub favored : List ℕ

abbrev pub terrain_specs : List TerrainSpec
terrain_specs =
    record {
      terrain = open_ground;
      name = "open";
      hard_barrier = false;
      impassable = [];
      favored = [];
    }
    ∷ record {
      terrain = barrier;
      name = "barrier";
      hard_barrier = true;
      impassable = [];
      favored = [];
    }
    ∷ record {
      terrain = rubble;
      name = "rubble";
      hard_barrier = false;
      impassable = tracks ∷ [];
      favored = legs ∷ [];
    }
    ∷ record {
      terrain = sand;
      name = "sand";
      hard_barrier = false;
      impassable = legs ∷ [];
      favored = tracks ∷ [];
    }
    ∷ []

unfoldable pub terrain_spec : ℕ → Option TerrainSpec
terrain_spec t = find_row (λ (s : TerrainSpec). s.terrain) t terrain_specs

-- `slices.Contains` on variants.
abbrev pub contains : List ℕ → ℕ → Bool
contains [] v = false
contains (x ∷ xs) v = x == v || contains xs v

-- `Terrain.Passable`: whether the locomotion may enter the terrain.
unfoldable pub enters : ℕ → ℕ → Bool
enters t locomotion = elim (terrain_spec t) [
  | none ↦ false
  | some s ↦ if s.hard_barrier then false else not (contains s.impassable locomotion)
]

abbrev pub favored_speed_bonus : ℕ
favored_speed_bonus = 4

unfoldable pub speed_bonus : ℕ → ℕ → ℕ
speed_bonus t locomotion = elim (terrain_spec t) [
  | none ↦ 0
  | some s ↦ if not (contains s.favored locomotion) then 0 else favored_speed_bonus
]
