-- ===== src/Lobby/Replay/Total.antt =====
-- A replay returns: the fuel of `replay_to` is enough for any log.
use robocolony.Common.{
  ℕ, zero, suc, ◌+◌, ◌%◌, ◌≤◌, ◌≡◌, refl, sym, subst, arith, leb, ◌==◌, Bool, true, false, not,
  ◌&&◌, inl, inr, Bool-cases, leb_false→lt, Option, some,
}
use robocolony.Sim.World.State.{World, Rng}
use robocolony.Prog.Runtime.{Unmarshal}
use robocolony.Lobby.Settings.{Floats}
use robocolony.Lobby.Match.{Match, step_match, advance}
use robocolony.Lobby.Match.Clock.{IsLive, advance_tick, advance-IsLive}
use robocolony.Lobby.Command.{Replayed, broken, fine, cancelled, ended_early}
use robocolony.Lobby.Replay.{apply_due, replay_loop, replay_to, ctx_check_ticks}
use robocolony.Lobby.Replay.Rounds.{Replayed-cases}
use robocolony.Lobby.Replay.Due.{Due, apply_due-Due, step_pair-over, step_pair-running}

module _ {F G : Type 0} ⦃fl : Floats F⦄ ⦃g : Rng G⦄ (o : World G) (unmarshal : Unmarshal) where
  module _ (ctx_err : ℕ → Bool) where
    -- A loop that returns.
    Returns : Option (Replayed (Match F G)) → Type 0
    Returns answer = (r : Replayed (Match F G)) × (answer ≡ some r)

    -- A round whose match has been over for a round is the last.
    stalled-Returns :
        (k n target : ℕ) (m : Match F G)
        → Returns (replay_loop unmarshal ctx_err (suc k) n true target m)
    unfolding replay_loop Returns
    stalled-Returns k n target m = elim (Bool-cases ((n % ctx_check_ticks == 0) && ctx_err n)) [
      | inl e ↦ rw e (broken cancelled, refl)
      | inr e ↦ elim (Replayed-cases (apply_due unmarshal m)) [
        | inl (x, a) ↦ rw (e, a) (broken x, refl)
        | inr (m1, a) ↦ elim (Bool-cases (leb target m1.world.tick)) [
          | inl d ↦ rw (e, a, d) (fine m1, refl)
          | inr d ↦ rw (e, a, d) (broken ended_early, refl)
        ]
      ]
    ]

    over-Returns :
        (k n target : ℕ) (m : Match F G)
        → 1 ≤ k
        → Returns (replay_loop unmarshal ctx_err k n true target m)
    over-Returns zero n target m h = absurd (omega arith)
    over-Returns (suc k) n target m h = stalled-Returns k n target m

    Again : ℕ → ℕ → ℕ → Match F G × Bool → Type 0
    Again k n target p = Returns (replay_loop unmarshal ctx_err k (n + 1) (not p.1) target p.0)

    -- The rounds after a step, if those of a live match with enough fuel return.
    stepped-Returns :
        (k n target : ℕ) (m m1 : Match F G)
        → suc (suc target) ≤ suc k + m.world.tick
        → Due o unmarshal m m1
        → leb target m1.world.tick ≡ false
        → ((stalled : Bool) (m2 : Match F G)
            → IsLive o m2
            → suc (suc target) ≤ k + m2.world.tick
            → Returns (replay_loop unmarshal ctx_err k (n + 1) stalled target m2))
        → Again k n target (step_match m1)
    unfolding Again
    stepped-Returns k n target m m1 h due d again =
        let lt = leb_false→lt target m1.world.tick d in
        let t = due.tick in
        elim (Bool-cases m1.finished) [
          | inl f ↦
              subst (Again k n target) (sym (step_pair-over o unmarshal m1 f))
                (over-Returns k (n + 1) target m1 (omega arith))
          | inr f ↦
              let next = advance_tick o m1 due.live f in
              subst (Again k n target) (sym (step_pair-running o unmarshal m1 f)) (
                again (not (not (advance m1).finished)) (advance m1)
                  (advance-IsLive o m1 due.live f) (omega arith))
        ]

    loop-Returns :
        (k n target : ℕ) (stalled : Bool) (m : Match F G)
        → 1 ≤ k
        → IsLive o m
        → suc (suc target) ≤ k + m.world.tick
        → Returns (replay_loop unmarshal ctx_err k n stalled target m)
    unfolding replay_loop Returns Again
    loop-Returns zero n target stalled m p l h = absurd (omega arith)
    loop-Returns (suc k) n target true m p l h = stalled-Returns k n target m
    loop-Returns (suc k) n target false m p l h =
        elim (Bool-cases ((n % ctx_check_ticks == 0) && ctx_err n)) [
          | inl e ↦ rw e (broken cancelled, refl)
          | inr e ↦ elim (Replayed-cases (apply_due unmarshal m)) [
            | inl (x, a) ↦ rw (e, a) (broken x, refl)
            | inr (m1, a) ↦ elim (Bool-cases (leb target m1.world.tick)) [
              | inl d ↦ rw (e, a, d) (fine m1, refl)
              | inr d ↦
                  let due = apply_due-Due o unmarshal m m1 l a in
                  let lt = leb_false→lt target m1.world.tick d in
                  let same = due.tick in
                  rw (e, a, d)
                    (stepped-Returns k n target m m1 h due d
                      (λ s m2 l2 h2. loop-Returns k (n + 1) target s m2 (omega arith) l2 h2))
            ]
          ]
        ]

    -- `ReplayTo` of a live match, with whatever log and whatever context, returns: it does not run
    -- out of fuel.
    pub replay_to_total :
        (target : ℕ) (m : Match F G)
        → IsLive o m
        → (r : Replayed (Match F G)) × (replay_to unmarshal ctx_err target m ≡ some r)
    unfolding replay_to Returns
    replay_to_total target m l =
        loop-Returns (suc (suc target)) 0 target false m (omega arith) l (omega arith)
