-- ===== src/Sim/Score.antt =====
-- The result of a match: `FleetValue`, `Score` and `Leaderboard` of internal/sim/match.go.
pub mod Order
use robocolony.Common.{
  ℕ, ◌+◌, ◌*◌, ◌/◌, Bool, ◌&&◌, ◌||◌, ltb, leb, ◌==◌, if◌then◌else◌, List, map, sum_of,
}
use robocolony.Common.{none, some, keep, length, sort_by}
use robocolony.Sim.Catalogue.{inventory_score_percent}
use robocolony.Sim.Blueprint.{value}
use robocolony.Sim.World.Inventory.{inventory_value}
use robocolony.Sim.World.State.{World, Robot, Base, Stats}
use robocolony.Sim.World.Access.{base_of}

pub record MatchResult : Type 0 where
  pub colony : ℕ
  pub score : ℕ
  pub fleet_value : ℕ
  pub robots : ℕ
  pub inventory_value : ℕ
  pub stats : Stats

-- The order of the leaderboard: the score first, then the fleet value, both falling, then the
-- colony.
abbrev pub le_result : MatchResult → MatchResult → Bool
le_result a b =
    ltb b.score a.score
    || (a.score == b.score)
      && (ltb b.fleet_value a.fleet_value
          || (a.fleet_value == b.fleet_value) && leb a.colony b.colony)

module _ {G : Type 0} where
  unfoldable pub fleet_value : World G → ℕ → ℕ
  fleet_value w colony =
      sum_of (λ (r : Robot). if r.colony == colony then value r.blueprint else 0) w.robots

  unfoldable pub score : World G → ℕ → ℕ
  score w colony = elim (base_of w colony) [
    | none ↦ fleet_value w colony
    | some (i, b) ↦
        fleet_value w colony + inventory_value b.inventory * inventory_score_percent / 100
  ]

  unfoldable pub result_of : World G → Base → MatchResult
  result_of w b = record {
    colony = b.colony;
    score = score w b.colony;
    fleet_value = fleet_value w b.colony;
    robots = length (keep (λ (r : Robot). r.colony == b.colony) w.robots);
    inventory_value = inventory_value b.inventory;
    stats = b.stats;
  }

  unfoldable pub leaderboard : World G → List MatchResult
  leaderboard w = sort_by le_result (map (result_of w) w.bases)
