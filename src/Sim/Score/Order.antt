-- ===== src/Sim/Score/Order.antt =====
-- The leaderboard ranks the bases of the world.
use mathlib.Core.List.{Perm}
use robocolony.Common.{
  ◌≡◌, ◌<◌, ◌≤◌, ◌⊎◌, true, false, arith, map, IsOrdered, IsSorted-IsOrdered, sort_by-IsSorted,
  sort_by-perm,
}
use robocolony.Sim.World.State.{World}
use robocolony.Sim.Score.{MatchResult, le_result, result_of, leaderboard}

le_result_total : (a b : MatchResult) → le_result a b ≡ false → le_result b a ≡ true
le_result_total a b h = ground arith

le_result_trans :
    (a b c : MatchResult) → le_result a b ≡ true → le_result b c ≡ true → le_result a c ≡ true
le_result_trans a b c h k = ground arith

-- `a` has the higher score, or the same one and the higher fleet value, or the same of both and a
-- colony that is not the higher one.
abbrev pub IsAhead : MatchResult → MatchResult → Type 0
IsAhead a b =
    (b.score < a.score)
    ⊎ (a.score ≡ b.score)
      × ((b.fleet_value < a.fleet_value) ⊎ (a.fleet_value ≡ b.fleet_value) × (a.colony ≤ b.colony))

le_result→IsAhead : (a b : MatchResult) → le_result a b ≡ true → IsAhead a b
le_result→IsAhead a b h = ground arith

-- The leaderboard lists the result of every base once. Of two results the earlier one has the higher
-- score, or at equal scores the higher fleet value, or at equal fleet values too a colony that is not
-- higher.
pub leaderboard-IsSorted :
    {G : Type 0} (w : World G)
    → IsOrdered IsAhead (leaderboard w) × Perm (leaderboard w) (map (result_of w) w.bases)
unfolding leaderboard
leaderboard-IsSorted w =
    let results = map (result_of w) w.bases in
    let sorted = sort_by-IsSorted le_result le_result_total le_result_trans results in
    (
      IsSorted-IsOrdered le_result IsAhead le_result→IsAhead (leaderboard w) sorted,
      sort_by-perm le_result results,
    )
