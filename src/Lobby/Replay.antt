-- ===== src/Lobby/Replay.antt =====
-- The replay of a recorded match: `applyDue`, `ReplayTo`, `newReplay` and `replay` of
-- internal/lobby/persist.go.
pub mod Inputs
pub mod Rounds
pub mod Rebuilds
pub mod Due
pub mod Total
use robocolony.Common.{
  ℕ, zero, suc, ◌+◌, ◌%◌, ltb, leb, ◌==◌, Bool, true, false, not, ◌&&◌, if◌then◌else◌, List, [],
  ◌∷◌, Option, none, some, length, drop,
}
use robocolony.Sim.World.State.{World, Rng}
use robocolony.Prog.Runtime.{Runtime, Unmarshal}
use robocolony.Lobby.Settings.{Floats, duration_ticks}
use robocolony.Lobby.Match.{Match, Command, step_match}
use robocolony.Lobby.Command.{
  Replayed, broken, fine, cancelled, out_of_order, ended_early, bad_record, apply_command,
}

abbrev pub ctx_check_ticks : ℕ
ctx_check_ticks = 256

module _ {F G : Type 0} ⦃fl : Floats F⦄ ⦃g : Rng G⦄ (unmarshal : Unmarshal) where
  abbrev after_command : Match F G → Replayed (World G × Runtime) → Replayed (Match F G)
  after_command m (broken e) = broken e
  after_command m (fine (w, rt)) =
      fine (record m { world = w; runtime = rt; replayed = m.replayed + 1 })

  -- The loop of `applyDue` over the commands that are left.
  unfoldable pub due_loop : List Command → Match F G → Replayed (Match F G)
  due_loop [] m = fine m
  due_loop (c ∷ cs) m =
      if ltb m.world.tick c.tick
      then fine m
      else if ltb c.tick m.world.tick
      then broken out_of_order
      else elim (after_command m (apply_command unmarshal c m.world m.runtime)) [
        | broken e ↦ broken e
        | fine m' ↦ due_loop cs m'
      ]

  -- `applyDue`; the tick that it reports is that of the match's world.
  unfoldable pub apply_due : Match F G → Replayed (Match F G)
  apply_due m = due_loop (drop m.replayed m.log) m

  -- The rounds of the loop of `ReplayTo` from round `n` on; `none` is a fuel that is used up. The
  -- context's state is read in the rounds that are multiples of 256.
  unfoldable pub replay_loop :
      (ℕ → Bool) → ℕ → ℕ → Bool → ℕ → Match F G → Option (Replayed (Match F G))
  replay_loop ctx_err zero n stalled target m = none
  replay_loop ctx_err (suc fuel) n stalled target m =
      if (n % ctx_check_ticks == 0) && ctx_err n
      then some (broken cancelled)
      else elim (apply_due m) [
        | broken e ↦ some (broken e)
        | fine m1 ↦
            if leb target m1.world.tick
            then some (fine m1)
            else if stalled
            then some (broken ended_early)
            else let (m2, running) = step_match m1 in
              replay_loop ctx_err fuel (n + 1) (not running) target m2
      ]

  -- `ReplayTo`, with fuel for a step to each tick up to the target and two more rounds.
  unfoldable pub replay_to : (ℕ → Bool) → ℕ → Match F G → Option (Replayed (Match F G))
  replay_to ctx_err target m = replay_loop ctx_err (suc (suc target)) 0 false target m
