-- ===== src/Lobby/Match/Sampled.antt =====
-- The history of a match stays evenly spaced and within its bound as the match is driven.
use robocolony.Common.{ℕ, zero, suc, ◌≡◌, sym, subst, arith, false, inl, inr, Bool-cases}
use robocolony.Sim.World.State.{World, Rng}
use robocolony.Lobby.Settings.{Floats}
use robocolony.Lobby.History.Spaced.{IsSpaced, sample-IsSpaced}
use robocolony.Lobby.Match.{Match, advance, step_match}
use robocolony.Lobby.Match.Clock.{
  IsLive, drive, advance_tick, step_match-IsLive, step_match-running, step_match-over, before_end,
  duration_ticks-lt,
}

module _ {F G : Type 0} ⦃fl : Floats F⦄ ⦃g : Rng G⦄ (o : World G) where
  advance-IsSampled :
      (m : Match F G)
      → IsLive o m
      → m.finished ≡ false
      → IsSpaced m.history m.world.tick
      → IsSpaced (advance m).history (advance m).world.tick
  unfolding advance
  advance-IsSampled m l e s =
      let tick = advance_tick o m l e in
      let lt = before_end o m l e in
      let top = duration_ticks-lt o m.settings in
      sample-IsSpaced (advance m).world m.history m.world.tick s tick (omega arith)

  -- Driven for any number of ticks, a live match whose history is spaced keeps a spaced history: at
  -- most 300 samples, at the multiples of one interval up to the clock, with one entry for each in
  -- each series of each colony.
  pub drive-IsSpaced :
      (n : ℕ) (m : Match F G)
      → IsLive o m
      → IsSpaced m.history m.world.tick
      → IsSpaced (drive n m).history (drive n m).world.tick
  unfolding drive
  drive-IsSpaced zero m l s = s
  drive-IsSpaced (suc n) m l s =
      drive-IsSpaced n (step_match m).0 (step_match-IsLive o m l) (elim (Bool-cases m.finished) [
        | inl e ↦
            subst (λ (x : Match F G). IsSpaced x.history x.world.tick) (sym (step_match-over o m e))
              s
        | inr e ↦
            subst (λ (x : Match F G). IsSpaced x.history x.world.tick)
              (sym (step_match-running o m e)) (advance-IsSampled m l e s)
      ])
