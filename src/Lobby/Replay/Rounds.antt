-- ===== src/Lobby/Replay/Rounds.antt =====
-- The rounds of a replay over the commands that are due.
use robocolony.Common.{
  ℕ, suc, ◌+◌, ◌%◌, ◌<◌, ◌≡◌, refl, ap, ap₂, ◌∙◌, arith, leb, ◌==◌, Bool, true, false, not, ◌&&◌,
  inl, inr, if◌then◌else◌, if_true, if_false, le→ltb_false, not-not, lt→ltb, List, [], ◌∷◌, All,
  Option, some, length, ◌⊎◌,
}
use robocolony.Sim.World.State.{World, Rng}
use robocolony.Prog.Runtime.{Runtime, Unmarshal}
use robocolony.Lobby.Settings.{Floats}
use robocolony.Lobby.Match.{Match, Command, step_match, advance}
use robocolony.Lobby.Command.{ReplayError, Replayed, broken, fine, apply_command, ended_early}
use robocolony.Lobby.Replay.{ctx_check_ticks, due_loop, apply_due, replay_loop}

pub and_false : (a b : Bool) → b ≡ false → (a && b) ≡ false
and_false true b h = h
and_false false b h = refl

pub Replayed-cases {ℓ} :
    {A : Type ℓ} (r : Replayed A) → ((e : ReplayError) × (r ≡ broken e)) ⊎ ((a : A) × (r ≡ fine a))
Replayed-cases (broken e) = inl (e, refl)
Replayed-cases (fine a) = inr (a, refl)

module _ {F G : Type 0} ⦃fl : Floats F⦄ ⦃g : Rng G⦄ (unmarshal : Unmarshal) where
  -- The replaying match that stands where the live match `m` stood, with the whole log.
  abbrev pub standing : List Command → Match F G → Match F G
  standing log m = record m { log = log; replayed = length m.log }

  -- The rest of a round of the replay's loop, after the commands that are due.
  unfoldable pub round :
      (ℕ → Bool) → ℕ → ℕ → Bool → ℕ → Replayed (Match F G) → Option (Replayed (Match F G))
  round ctx_err fuel n stalled target (broken e) = some (broken e)
  round ctx_err fuel n stalled target (fine m1) =
      if leb target m1.world.tick
      then some (fine m1)
      else if stalled
      then some (broken ended_early)
      else replay_loop unmarshal ctx_err fuel (n + 1) (not (step_match m1).1) target
          (step_match m1).0

  module _ (ctx_err : ℕ → Bool) (open_ctx : (n : ℕ) → ctx_err n ≡ false) where
    pub loop-round :
        (k n : ℕ) (stalled : Bool) (target : ℕ) (m : Match F G)
        → replay_loop unmarshal ctx_err (suc k) n stalled target m
          ≡ round ctx_err k n stalled target (apply_due unmarshal m)
    unfolding replay_loop round
    loop-round k n stalled target m =
        let free = and_false (n % ctx_check_ticks == 0) (ctx_err n) (open_ctx n) in
        elim (Replayed-cases (apply_due unmarshal m)) [
          | inl (e, h) ↦ rw (free, h) refl
          | inr (m1, h) ↦ rw (free, h) refl
        ]

    -- A command that is due and can be repeated.
    pub due-command :
        (m : Match F G) (w : World G) (rt : Runtime) (c : Command) (cs : List Command)
        → c.tick ≡ m.world.tick
        → apply_command unmarshal c m.world m.runtime ≡ fine (w, rt)
        → due_loop unmarshal (c ∷ cs) m
          ≡ due_loop unmarshal cs (record m { world = w; runtime = rt; replayed = m.replayed + 1 })
    unfolding due_loop
    due-command m w rt c cs t a =
        let early = le→ltb_false m.world.tick c.tick (omega arith) in
        let late = le→ltb_false c.tick m.world.tick (omega arith) in rw (early, late, a) refl

    -- No command is due before its tick.
    pub due-later :
        (m : Match F G) (cs : List Command)
        → All (λ (c : Command). m.world.tick < c.tick) cs
        → due_loop unmarshal cs m ≡ fine m
    unfolding due_loop
    due-later m [] h = refl
    due-later m (c ∷ cs) h = if_true _ _ (lt→ltb m.world.tick c.tick h.0)

    pub step-standing :
        (m : Match F G) (log : List Command)
        → m.finished ≡ false
        → step_match (standing log m) ≡ (standing log (advance m), not (advance m).finished)
    unfolding step_match advance
    step-standing m log e = rw e refl

    -- A round with no command due, of a match that runs and is not at the target.
    pub round-step :
        (k n : ℕ) (m : Match F G) (log : List Command) (target : ℕ)
        → m.finished ≡ false
        → leb target m.world.tick ≡ false
        → round ctx_err k n m.finished target (fine (standing log m))
          ≡ replay_loop unmarshal ctx_err k
              (n + 1)
              (advance m).finished
              target
              (standing log (advance m))
    unfolding round
    round-step k n m log target e h =
        let next = step-standing m log e in
        if_false _ _ h
        ∙ if_false _ _ e
        ∙ ap₂ (λ b x. replay_loop unmarshal ctx_err k (n + 1) b target x)
            (ap (λ (p : Match F G × Bool). not p.1) next ∙ not-not (advance m).finished)
            (ap (λ (p : Match F G × Bool). p.0) next)
