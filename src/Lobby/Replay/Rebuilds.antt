-- ===== src/Lobby/Replay/Rebuilds.antt =====
-- A replay of a match's own record rebuilds the match.
use robocolony.Common.{
  ℕ, zero, suc, ◌+◌, ◌≤◌, ◌<◌, ◌≡◌, sym, ap, subst, ◌∙◌, arith, Bool, false, inl, inr, Bool-cases,
  if_true, le→leb, lt→leb_false, List, [], ◌∷◌, ◌++◌, All, All-map, some, length, length-append,
  drop, drop-append, ◌⊎◌,
}
use mathlib.Core.List.{append-nil, append_assoc}
use robocolony.Sim.World.State.{World, Rng}
use robocolony.Prog.Runtime.{Runtime, Unmarshal}
use robocolony.Lobby.Settings.{Floats}
use robocolony.Lobby.Match.{Match, Command, advance}
use robocolony.Lobby.Match.Clock.{IsLive, advance_tick, step_match-running, step_match-over}
use robocolony.Lobby.Command.{fine, apply_command}
use robocolony.Lobby.Command.Repeats.{Applied, recall_live-effect, install_live-effect}
use robocolony.Lobby.Replay.{due_loop, apply_due, replay_loop, replay_to}
use robocolony.Lobby.Replay.Inputs.{
  Input, tick_of_driver, recall_by, install_by, take_input, play, loaded, take_input-IsLive,
}
use robocolony.Lobby.Replay.Rounds.{standing, round, loop-round, due-command, due-later, round-step}

module _ {F G : Type 0} ⦃fl : Floats F⦄ ⦃g : Rng G⦄ (unmarshal : Unmarshal) where
  module _ (ctx_err : ℕ → Bool) (open_ctx : (n : ℕ) → ctx_err n ≡ false) where
    -- The replay of the rest of a match's life, from the live match `m` to its last state `l`.
    record Rebuilt (m l : Match F G) : Type 0 where
      rest : List Command
      log : l.log ≡ m.log ++ rest
      later : All (λ (c : Command). m.world.tick ≤ c.tick) rest
      clock : m.world.tick ≤ l.world.tick
      replays :
          (k n : ℕ)
          → l.world.tick ≤ k + m.world.tick
          → round unmarshal ctx_err k n m.finished l.world.tick
              (due_loop unmarshal rest (standing unmarshal l.log m))
            ≡ some (fine (standing unmarshal l.log l))

    Rebuilt-nil : (m : Match F G) → Rebuilt m m
    unfolding round due_loop
    Rebuilt-nil m = record {
      rest = [];
      log = sym (append-nil m.log);
      later = tt;
      clock = omega arith;
      replays = λ k n h. if_true _ _ (le→leb m.world.tick m.world.tick (omega arith));
    }

    -- One more command in front.
    Rebuilt-command :
        (m l : Match F G) (w : World G) (rt : Runtime) (c : Command)
        → c.tick ≡ m.world.tick
        → w.tick ≡ m.world.tick
        → apply_command unmarshal c m.world m.runtime ≡ fine (w, rt)
        → Rebuilt (record m { world = w; runtime = rt; log = m.log ++ c ∷ [] }) l
        → Rebuilt m l
    unfolding due_loop
    Rebuilt-command m l w rt c t u a b = record {
      rest = c ∷ b.rest;
      log = b.log ∙ append_assoc m.log (c ∷ []) b.rest;
      later = (
        (let z : m.world.tick ≤ c.tick = omega arith in z),
        subst (λ x. All (λ (d : Command). x ≤ d.tick) b.rest) u b.later,
      );
      clock = let k = b.clock in omega arith;
      replays = λ k n h.
          let due =
            due-command unmarshal ctx_err open_ctx (standing unmarshal l.log m) w rt c b.rest t a in
          let one = length-append m.log (c ∷ []) in
          ap (round unmarshal ctx_err k n m.finished l.world.tick) (
            due
            ∙ ap
                (λ x.
                  due_loop unmarshal b.rest
                    (record (standing unmarshal l.log m) { world = w; runtime = rt; replayed = x }))
                (sym one))
          ∙ b.replays k n (omega arith);
    }

    due-standing :
        (m l : Match F G) (b : Rebuilt m l)
        → apply_due unmarshal (standing unmarshal l.log m)
          ≡ due_loop unmarshal b.rest (standing unmarshal l.log m)
    unfolding apply_due
    due-standing m l b =
        ap (λ cs. due_loop unmarshal cs (standing unmarshal l.log m))
          (ap (drop (length m.log)) b.log ∙ drop-append m.log b.rest)

    -- The round that takes the replay over a tick.
    Rebuilt-round :
        (o : World G) (m l : Match F G)
        → IsLive o m
        → m.finished ≡ false
        → (b : Rebuilt (advance m) l) → (k n : ℕ) → l.world.tick ≤ k + m.world.tick
        → round unmarshal ctx_err k n m.finished l.world.tick
            (due_loop unmarshal b.rest (standing unmarshal l.log m))
          ≡ some (fine (standing unmarshal l.log l))
    Rebuilt-round o m l live e b zero n h =
        let tick = advance_tick o m live e in let c = b.clock in absurd (omega arith)
    Rebuilt-round o m l live e b (suc k) n h =
        let tick = advance_tick o m live e in
        let c = b.clock in
        let due =
          due-later unmarshal ctx_err open_ctx (standing unmarshal l.log m) b.rest
            (All-map (λ d z. let y : m.world.tick < d.tick = omega arith in y) b.rest b.later) in
        ap (round unmarshal ctx_err (suc k) n m.finished l.world.tick) due
        ∙ round-step unmarshal ctx_err open_ctx (suc k) n m l.log l.world.tick e
            (lt→leb_false l.world.tick m.world.tick (omega arith))
        ∙ loop-round unmarshal ctx_err open_ctx k (n + 1) (advance m).finished l.world.tick
            (standing unmarshal l.log (advance m))
        ∙ ap (round unmarshal ctx_err k (n + 1) (advance m).finished l.world.tick)
            (due-standing (advance m) l b)
        ∙ b.replays k (n + 1) (omega arith)

    -- One more tick in front.
    Rebuilt-tick :
        (o : World G) (m l : Match F G)
        → IsLive o m
        → m.finished ≡ false
        → Rebuilt (advance m) l
        → Rebuilt m l
    unfolding advance
    Rebuilt-tick o m l live e b =
        let tick = advance_tick o m live e in
        record {
          rest = b.rest;
          log = b.log;
          later = All-map (λ c h. let z : m.world.tick ≤ c.tick = omega arith in z) b.rest b.later;
          clock = let k = b.clock in omega arith;
          replays = λ k n h. Rebuilt-round o m l live e b k n h;
        }

    Rebuilt-effect :
        (o : World G) (m m' l : Match F G)
        → (m' ≡ m) ⊎ Applied o unmarshal m m'
        → Rebuilt m' l
        → Rebuilt m l
    Rebuilt-effect o m m' l (inl q) b = subst (λ x. Rebuilt x l) q b
    Rebuilt-effect o m m' l (inr a) b =
        Rebuilt-command m l a.world a.runtime a.command a.stamped a.clock a.repeats
          (subst (λ x. Rebuilt x l) a.result b)

    -- One more input in front.
    Rebuilt-input :
        (o : World G) (i : Input) (m l : Match F G)
        → IsLive o m
        → Rebuilt (take_input unmarshal i m) l
        → Rebuilt m l
    unfolding take_input
    Rebuilt-input o tick_of_driver m l live b = elim (Bool-cases m.finished) [
      | inl e ↦ subst (λ x. Rebuilt x l) (step_match-over o m e) b
      | inr e ↦ Rebuilt-tick o m l live e (subst (λ x. Rebuilt x l) (step_match-running o m e) b)
    ]
    Rebuilt-input o (recall_by colony id) m l live b =
        Rebuilt-effect o m _ l (recall_live-effect o unmarshal m colony id) b
    Rebuilt-input o (install_by colony id name body) m l live b =
        Rebuilt-effect o m _ l (install_live-effect o unmarshal m colony id name body) b

    Rebuilt-play :
        (o : World G) (is : List Input) (m : Match F G)
        → IsLive o m
        → Rebuilt m (play unmarshal is m)
    unfolding play
    Rebuilt-play o [] m live = Rebuilt-nil m
    Rebuilt-play o (i ∷ is) m live =
        Rebuilt-input o i m _ live
          (Rebuilt-play o is (take_input unmarshal i m) (take_input-IsLive unmarshal o i m live))

    -- A match that starts with an empty log and is not over lives through any sequence of ticks,
    -- recalls and installs. Replaying its log on the match it started from, to the tick it has come
    -- to, on a context that is never cancelled, ends without an error or running out of fuel, in the
    -- same match: world, runtime, history, events and all, with the whole log replayed.
    pub replay_rebuilds :
        (o : World G) (m : Match F G) (is : List Input)
        → IsLive o m
        → m.finished ≡ false
        → m.log ≡ []
        → replay_to unmarshal ctx_err
            (play unmarshal is m).world.tick
            (loaded unmarshal (play unmarshal is m).log m)
          ≡ some
              (fine (record (play unmarshal is m) { replayed = length (play unmarshal is m).log }))
    unfolding replay_to
    replay_rebuilds o m is live e empty =
        let l = play unmarshal is m in
        let b = Rebuilt-play o is m live in
        let start : loaded unmarshal l.log m ≡ standing unmarshal l.log m =
          ap (λ x. record m { log = l.log; replayed = x }) (sym (ap length empty)) in
        ap (replay_loop unmarshal ctx_err (suc (suc l.world.tick)) 0 false l.world.tick) start
        ∙ ap
            (λ s.
              replay_loop unmarshal ctx_err (suc (suc l.world.tick)) 0 s l.world.tick
                (standing unmarshal l.log m))
            (sym e)
        ∙ loop-round unmarshal ctx_err open_ctx (suc l.world.tick) 0 m.finished l.world.tick
            (standing unmarshal l.log m)
        ∙ ap (round unmarshal ctx_err (suc l.world.tick) 0 m.finished l.world.tick)
            (due-standing m l b)
        ∙ b.replays (suc l.world.tick) 0 (omega arith)
