-- ===== src/Lobby/Restore/Saved.antt =====
-- A restart puts a running match back as it was saved.
use robocolony.Common.{
  ℕ, ◌+◌, ◌^◌, ◌≤◌, ◌<◌, ◌≡◌, refl, ap, ◌∙◌, arith, ltb, pos, ltb_ℤ, Bool, true, false, inl, inr,
  Bool-cases, if_true, lt→ltb, le→ltb_false, lt→leb_false, String, List, [], ◌∷◌, Option, some,
  length, ◌⊎◌,
}
use native.Mathlib.Nat.{mod-eq_of_lt}
use text.Mathlib.TextPositions.{eq_refl}
use robocolony.Sim.World.State.{World, Rng}
use robocolony.Prog.Runtime.{Unmarshal}
use robocolony.Lobby.Settings.{Floats, Settings, u64_of_int, duration_ticks}
use robocolony.Lobby.Match.{Match, Command, step_match, advance}
use robocolony.Lobby.Match.Clock.{IsLive, before_end, duration_ticks-lt}
use robocolony.Lobby.Command.{fine}
use robocolony.Lobby.Command.Repeats.{Applied, recall_live-effect, install_live-effect}
use robocolony.Lobby.Replay.{replay_to}
use robocolony.Lobby.Replay.Inputs.{
  Input, tick_of_driver, recall_by, install_by, take_input, play, loaded, take_input-IsLive,
}
use robocolony.Lobby.Replay.Rebuilds.{replay_rebuilds}
use robocolony.Lobby.Restore.{int_of_u64, save, new_replay, replay, restored, restore}

int_of_u64-small : (n : ℕ) → n < 2 ^ 63 → int_of_u64 n ≡ pos n
unfolding int_of_u64
int_of_u64-small n h = if_true _ _ (lt→ltb n (2 ^ 63) h)

u64_of_int-pos : (n : ℕ) → n < 2 ^ 64 → u64_of_int (pos n) ≡ n
unfolding u64_of_int
u64_of_int-pos n h = mod-eq_of_lt h

module _ {F G : Type 0} ⦃fl : Floats F⦄ ⦃g : Rng G⦄ (unmarshal : Unmarshal) where
  effect-settings :
      (o : World G) (m m' : Match F G)
      → (m' ≡ m) ⊎ Applied o unmarshal m m'
      → m'.settings ≡ m.settings
  effect-settings o m m' (inl q) = ap (λ (x : Match F G). x.settings) q
  effect-settings o m m' (inr a) = ap (λ (x : Match F G). x.settings) a.result

  step_match-settings : (m : Match F G) → (step_match m).0.settings ≡ m.settings
  unfolding step_match advance
  step_match-settings m = elim (Bool-cases m.finished) [ inl e ↦ rw e refl | inr e ↦ rw e refl ]

  take_input-settings :
      (o : World G) (i : Input) (m : Match F G) → (take_input unmarshal i m).settings ≡ m.settings
  unfolding take_input
  take_input-settings o tick_of_driver m = step_match-settings m
  take_input-settings o (recall_by colony id) m =
      effect-settings o m _ (recall_live-effect o unmarshal m colony id)
  take_input-settings o (install_by colony id name body) m =
      effect-settings o m _ (install_live-effect o unmarshal m colony id name body)

  play-IsLive :
      (o : World G) (is : List Input) (m : Match F G)
      → IsLive o m
      → IsLive o (play unmarshal is m) × ((play unmarshal is m).settings ≡ m.settings)
  unfolding play
  play-IsLive o [] m l = (l, refl)
  play-IsLive o (i ∷ is) m l =
      let rest =
        play-IsLive o is (take_input unmarshal i m) (take_input-IsLive unmarshal o i m l) in
      (rest.0, rest.1 ∙ take_input-settings o i m)

  module _ (starts : Match F G → Bool) (ctx_err : ℕ → Bool)
      (decode : String → Option (List Command)) where
    -- The restore of a record whose commands decode and whose replay rebuilds `l`.
    restore-rebuilt :
        (m l : Match F G) (build text : String) (log : List Command) (t end : ℕ)
        → t < end
        → end < 2 ^ 64
        → decode text ≡ some log
        → replay_to unmarshal ctx_err t (record m { log = log }) ≡ some (fine l)
        → ltb l.replayed (length l.log) ≡ false
        → starts l ≡ true
        → restore starts build (replay unmarshal decode ctx_err (some m) end) (
            some
              (record { fingerprint = build; tick = pos t; finished_at = false; commands = text }))
          ≡ restored l
    unfolding restore replay new_replay
    restore-rebuilt m l build text log t end h b d r x y =
        let small = u64_of_int-pos t (omega arith) in
        let early = le→ltb_false end t (omega arith) in
        let ahead = lt→leb_false end t (omega arith) in
        let natural : ltb_ℤ (pos t) (pos 0) ≡ false = le→ltb_false (t + 0) (0 + 0) (omega arith) in
        rw (eq_refl build, d, natural, small, early, small, ahead, r, x, y) refl

    -- What is saved of a match that runs.
    save-running :
        (encode : List Command → Option String) (build text : String) (l : Match F G)
        → encode l.log ≡ some text
        → l.finished ≡ false
        → l.world.tick < 2 ^ 63
        → save encode build l
          ≡ some (record {
            fingerprint = build;
            tick = pos l.world.tick;
            finished_at = false;
            commands = text;
          })
    unfolding save
    save-running encode build text l c e b = rw (c, e, int_of_u64-small l.world.tick b) refl

    -- A live match starts, not finished, with an empty log and nothing replayed, goes through any
    -- sequence of ticks, recalls and installs and still runs; it lasts at most 2^63 ticks. If its
    -- commands can be encoded and decode to the same commands, then a restart of the same build
    -- restores from the record that is saved the same match, with its whole log replayed, provided
    -- that the room's settings and seats give the match that it started from, that the context of the
    -- restart is never cancelled, and that the registry takes the match.
    pub restore-save :
        (open_ctx : (n : ℕ) → ctx_err n ≡ false) (encode : List Command → Option String)
        (build text : String) (o : World G) (m : Match F G) (is : List Input)
        → IsLive o m
        → m.finished ≡ false
        → m.log ≡ []
        → m.replayed ≡ 0
        → (play unmarshal is m).finished ≡ false
        → duration_ticks m.settings ≤ 2 ^ 63
        → encode (play unmarshal is m).log ≡ some text
        → decode text ≡ some (play unmarshal is m).log
        → starts (record (play unmarshal is m) { replayed = length (play unmarshal is m).log })
          ≡ true
        → restore starts build
            (replay unmarshal decode ctx_err (some m) (duration_ticks m.settings))
            (save encode build (play unmarshal is m))
          ≡ restored (record (play unmarshal is m) { replayed = length (play unmarshal is m).log })
    restore-save open_ctx encode build text o m is live e empty zero run max c d takes =
        let l = play unmarshal is m in
        let end = duration_ticks m.settings in
        let alive = play-IsLive o is m live in
        let same : duration_ticks l.settings ≡ end =
          ap (λ (s : Settings F). duration_ticks s) alive.1 in
        let before = before_end o l alive.0 run in
        let top = duration_ticks-lt o m.settings in
        let saved = save-running encode build text l c run (omega arith) in
        let start : record m { log = l.log } ≡ loaded unmarshal l.log m =
          ap (λ x. record m { log = l.log; replayed = x }) zero in
        let again =
          ap (replay_to unmarshal ctx_err l.world.tick) start
          ∙ replay_rebuilds unmarshal ctx_err open_ctx o m is live e empty in
        ap (restore starts build (replay unmarshal decode ctx_err (some m) end)) saved
        ∙ restore-rebuilt m (record l { replayed = length l.log }) build text l.log l.world.tick end
            (omega arith) top d again (le→ltb_false (length l.log) (length l.log) (omega arith))
            takes
