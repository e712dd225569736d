-- ===== src/Lobby/Replay/Inputs.antt =====
-- The inputs of a live match, and what every one of them keeps.
use robocolony.Common.{
  ℕ, ◌≡◌, sym, ap, subst, ◌∙◌, arith, leb, inl, inr, String, List, [], ◌∷◌, ◌⊎◌,
}
use robocolony.Sim.World.State.{World, Rng}
use robocolony.Prog.Runtime.{Unmarshal}
use robocolony.Lobby.Settings.{Floats, duration_ticks}
use robocolony.Lobby.Match.{Match, Command, step_match}
use robocolony.Lobby.Match.Clock.{IsLive, step_match-IsLive}
use robocolony.Lobby.Command.{recall_live, install_live}
use robocolony.Lobby.Command.Repeats.{Applied, recall_live-effect, install_live-effect}

-- What can happen to a match under its lock: a tick of the driver, a player's recall of a robot, and
-- a player's install of a program.
pub data Input : Type 0 where
  tick_of_driver : Input
  recall_by : ℕ → ℕ → Input
  install_by : ℕ → ℕ → String → String → Input

module _ {F G : Type 0} ⦃fl : Floats F⦄ ⦃g : Rng G⦄ (unmarshal : Unmarshal) where
  unfoldable pub take_input : Input → Match F G → Match F G
  take_input tick_of_driver m = (step_match m).0
  take_input (recall_by colony id) m = (recall_live colony id m).0
  take_input (install_by colony id name body) m = (install_live unmarshal colony id name body m).0

  -- A match under a sequence of inputs, in their order.
  unfoldable pub play : List Input → Match F G → Match F G
  play [] m = m
  play (i ∷ is) m = play is (take_input i m)

  -- The record of a match: its log, with nothing of it replayed.
  abbrev pub loaded : List Command → Match F G → Match F G
  loaded log m = record m { log = log; replayed = 0 }

  effect-IsLive :
      (o : World G) (m m' : Match F G)
      → (m' ≡ m) ⊎ Applied o unmarshal m m'
      → IsLive o m
      → IsLive o m'
  effect-IsLive o m m' (inl q) live = subst (IsLive o) (sym q) live
  effect-IsLive o m m' (inr a) live = subst (IsLive o) (sym a.result) (record {
    safe = a.safe live.safe;
    no_duration = a.duration ∙ live.no_duration;
    within = let t = a.clock in let w = live.within in omega arith;
    over = live.over ∙ ap (leb (duration_ticks m.settings)) (sym a.clock);
  })

  -- Every input keeps a match live: its world safe, its clock within the end that the settings give,
  -- and the match over exactly when the clock has come there.
  pub take_input-IsLive :
      (o : World G) (i : Input) (m : Match F G) → IsLive o m → IsLive o (take_input i m)
  unfolding take_input
  take_input-IsLive o tick_of_driver m live = step_match-IsLive o m live
  take_input-IsLive o (recall_by colony id) m live =
      effect-IsLive o m _ (recall_live-effect o unmarshal m colony id) live
  take_input-IsLive o (install_by colony id name body) m live =
      effect-IsLive o m _ (install_live-effect o unmarshal m colony id name body) live
