-- ===== src/Lobby/Replay/Due.antt =====
-- What the commands that are due leave of a match that is replayed.
use robocolony.Common.{
  ℕ, ◌+◌, ◌≡◌, refl, sym, ap, subst, ◌∙◌, arith, ltb, leb, true, false, not, inl, inr, Bool-cases,
  Option-cases, List, [], ◌∷◌, drop,
}
use robocolony.Sim.World.State.{World, Robot, Rng}
use robocolony.Sim.World.Access.{robot_by_id}
use robocolony.Sim.Safety.{IsSafe, RobotOk}
use robocolony.Prog.Runtime.{Runtime, Unmarshal, decode, Decoded, refused, decoded}
use robocolony.Lobby.Settings.{Floats, duration_ticks}
use robocolony.Lobby.Match.{
  Match, Command, CommandKind, cmd_recall, cmd_program, cmd_other, step_match, advance,
}
use robocolony.Lobby.Match.Clock.{IsLive}
use robocolony.Lobby.Command.{
  Replayed, broken, fine, apply_command, repeat_kind, repeat_program, recall, write_robot,
  robot_missing, out_of_order,
}
use robocolony.Lobby.Command.Repeats.{write_robot-IsSafe, recall-RobotOk, reprogram-RobotOk}
use robocolony.Lobby.Replay.{due_loop, apply_due}
use robocolony.Lobby.Replay.Rounds.{Replayed-cases}

module _ {G : Type 0} (o : World G) where
  -- What a repeated command leaves alone.
  record Kept (w w' : World G) : Type 0 where
    tick : w'.tick ≡ w.tick
    duration : w'.duration ≡ w.duration
    safe : IsSafe o w → IsSafe o w'

  world_of : Replayed (World G × Runtime) → World G → World G
  world_of (broken e) w = w
  world_of (fine (w', rt)) w = w'

  abbrev written : World G → ℕ → (Robot → Robot) → Runtime → Replayed (World G × Runtime)
  written w id f rt = fine (write_robot w id f, rt)

  written-Kept :
      (w w' : World G) (rt rt' : Runtime) (id : ℕ) (f : Robot → Robot)
      → ((r : Robot) → RobotOk o r → RobotOk o (f r))
      → written w id f rt ≡ fine (w', rt')
      → Kept w w'
  unfolding world_of
  written-Kept w w' rt rt' id f step h =
      subst (Kept w) (ap (λ x. world_of x w) h)
        (record { tick = refl; duration = refl; safe = write_robot-IsSafe o w id f step })

  repeat_program-Kept :
      (w : World G) (rt : Runtime) (c : Command) (d : Decoded) (w' : World G) (rt' : Runtime)
      → repeat_program w rt c d ≡ fine (w', rt')
      → Kept w w'
  repeat_program-Kept w rt c (refused e) w' rt' h = absurd cc
  repeat_program-Kept w rt c (decoded p) w' rt' h =
      written-Kept w w' _ rt' c.robot _ (reprogram-RobotOk o c.program_id) h

  repeat_kind-Kept :
      (unmarshal : Unmarshal) (w : World G) (rt : Runtime) (c : Command) (k : CommandKind)
      (w' : World G) (rt' : Runtime)
      → repeat_kind unmarshal w rt c k ≡ fine (w', rt')
      → Kept w w'
  repeat_kind-Kept unmarshal w rt c cmd_recall w' rt' h =
      written-Kept w w' rt rt' c.robot recall (recall-RobotOk o) h
  repeat_kind-Kept unmarshal w rt c cmd_program w' rt' h =
      repeat_program-Kept w rt c (decode unmarshal c.program) w' rt' h
  repeat_kind-Kept unmarshal w rt c cmd_other w' rt' h = absurd cc

  apply_command-Kept :
      (unmarshal : Unmarshal) (c : Command) (w : World G) (rt : Runtime) (w' : World G)
      (rt' : Runtime)
      → apply_command unmarshal c w rt ≡ fine (w', rt')
      → Kept w w'
  unfolding apply_command
  apply_command-Kept unmarshal c w rt w' rt' h = elim (Option-cases (robot_by_id w c.robot)) [
    | inl n ↦ let q : broken robot_missing ≡ fine (w', rt') = rw n at h in absurd cc
    | inr (r, n) ↦ repeat_kind-Kept unmarshal w rt c c.kind w' rt' (rw n at h)
  ]

module _ {F G : Type 0} ⦃fl : Floats F⦄ ⦃g : Rng G⦄ (o : World G) (unmarshal : Unmarshal) where
  -- What the commands that are due leave of a live match.
  pub record Due (m m1 : Match F G) : Type 0 where
    pub live : IsLive o m1
    pub tick : m1.world.tick ≡ m.world.tick

  same-Due : (m m1 : Match F G) → IsLive o m → fine m ≡ fine m1 → Due m m1
  same-Due m m1 l h = let q : m ≡ m1 = cc in subst (Due m) q (record { live = l; tick = refl })

  repeated-IsLive :
      (m : Match F G) (w : World G) (rt : Runtime)
      → IsLive o m
      → Kept o m.world w
      → IsLive o (record m { world = w; runtime = rt; replayed = m.replayed + 1 })
  repeated-IsLive m w rt l k = record {
    safe = k.safe l.safe;
    no_duration = k.duration ∙ l.no_duration;
    within = let t = k.tick in let b = l.within in omega arith;
    over = l.over ∙ ap (leb (duration_ticks m.settings)) (sym k.tick);
  }

  due_loop-Due :
      (cs : List Command) (m m1 : Match F G)
      → IsLive o m
      → due_loop unmarshal cs m ≡ fine m1
      → Due m m1
  unfolding due_loop
  due_loop-Due [] m m1 l h = same-Due m m1 l h
  due_loop-Due (c ∷ cs) m m1 l h = elim (Bool-cases (ltb m.world.tick c.tick)) [
    | inl e ↦ same-Due m m1 l (rw e at h)
    | inr e ↦ elim (Bool-cases (ltb c.tick m.world.tick)) [
      | inl d ↦ let q : broken out_of_order ≡ fine m1 = rw (e, d) at h in absurd cc
      | inr d ↦ elim (Replayed-cases (apply_command unmarshal c m.world m.runtime)) [
        | inl (x, a) ↦ let q : broken x ≡ fine m1 = rw (e, d, a) at h in absurd cc
        | inr ((w, rt), a) ↦
            let k = apply_command-Kept o unmarshal c m.world m.runtime w rt a in
            let next = record m { world = w; runtime = rt; replayed = m.replayed + 1 } in
            let rest = due_loop-Due cs next m1 (repeated-IsLive m w rt l k) (rw (e, d, a) at h) in
            record { live = rest.live; tick = rest.tick ∙ k.tick }
      ]
    ]
  ]

  pub apply_due-Due : (m m1 : Match F G) → IsLive o m → apply_due unmarshal m ≡ fine m1 → Due m m1
  unfolding apply_due
  apply_due-Due m m1 l h = due_loop-Due (drop m.replayed m.log) m m1 l h

  pub step_pair-over : (m : Match F G) → m.finished ≡ true → step_match m ≡ (m, false)
  unfolding step_match
  step_pair-over m e = rw e refl

  pub step_pair-running :
      (m : Match F G) → m.finished ≡ false → step_match m ≡ (advance m, not (advance m).finished)
  unfolding step_match
  step_pair-running m e = rw e refl
