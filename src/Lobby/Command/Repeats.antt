-- ===== src/Lobby/Command/Repeats.antt =====
-- An accepted command is one that its record repeats, and it leaves the clock and the board alone.
use robocolony.Common.{
  ℕ, ◌≡◌, refl, sym, subst, false, inl, inr, Bool-cases, Option-cases, String, List, [], ◌∷◌, ◌++◌,
  All, List-cases, some, ◌⊎◌, ◌==◌, if_true, if_false,
}
use robocolony.Sim.World.State.{World, Robot}
use robocolony.Sim.World.Access.{passable, inside, at, index, robot_by_id, at_own_base}
use robocolony.Sim.Safety.{IsSafe, RobotOk}
use robocolony.Prog.Runtime.{
  Runtime, Program, Unmarshal, DecodeError, Decoded, refused, decoded, decode, install,
}
use robocolony.Prog.Structure.{validate_errors}
use robocolony.Lobby.Match.{Match, Command, cmd_recall, cmd_program}
use robocolony.Lobby.Command.{
  reprogram, recall, modify_robot, write_robot, robot_of, recall_robot, install_program, apply_live,
  recall_live, install_live, fine, apply_command,
}

pub Decoded-cases :
    (d : Decoded) → ((e : DecodeError) × (d ≡ refused e)) ⊎ ((p : Program) × (d ≡ decoded p))
Decoded-cases (refused e) = inl (e, refl)
Decoded-cases (decoded p) = inr (p, refl)

module _ {G : Type 0} (o : World G) where
  pub recall-RobotOk : (r : Robot) → RobotOk o r → RobotOk o (recall r)
  unfolding passable inside at index
  recall-RobotOk r k = record {
    stands = k.stands;
    facing = k.facing;
    healthy = k.healthy;
    registers = k.registers;
    slots = k.slots;
  }

  pub reprogram-RobotOk : (id : String) (r : Robot) → RobotOk o r → RobotOk o (reprogram id r)
  unfolding passable inside at index reprogram
  reprogram-RobotOk id r k = record {
    stands = k.stands;
    facing = k.facing;
    healthy = k.healthy;
    registers = refl;
    slots = k.slots;
  }

  modify_robot-All :
      (id : ℕ) (f : Robot → Robot)
      → ((r : Robot) → RobotOk o r → RobotOk o (f r))
      → (rs : List Robot) → All (RobotOk o) rs
      → All (RobotOk o) (modify_robot id f rs)
  unfolding modify_robot
  modify_robot-All id f step [] h = tt
  modify_robot-All id f step (r ∷ rs) h = elim (Bool-cases (r.id == id)) [
    | inl e ↦ subst (All (RobotOk o)) (sym (if_true _ _ e)) (step r h.0, h.1)
    | inr e ↦
        subst (All (RobotOk o)) (sym (if_false _ _ e)) (h.0, modify_robot-All id f step rs h.1)
  ]

  pub write_robot-IsSafe :
      (w : World G) (id : ℕ) (f : Robot → Robot)
      → ((r : Robot) → RobotOk o r → RobotOk o (f r))
      → IsSafe o w
      → IsSafe o (write_robot w id f)
  unfolding passable inside at index
  write_robot-IsSafe w id f step s = record {
    width = s.width;
    height = s.height;
    cells = s.cells;
    robots = modify_robot-All id f step w.robots s.robots;
    bases = s.bases;
  }

  -- A recorded recall of a robot that exists.
  repeats-recall :
      (unmarshal : Unmarshal) (w : World G) (rt : Runtime) (id : ℕ) (r : Robot)
      → robot_by_id w id ≡ some r
      → apply_command unmarshal
          (record { tick = w.tick; kind = cmd_recall; robot = id; program_id = ""; program = "" })
          w
          rt
        ≡ fine (write_robot w id recall, rt)
  unfolding apply_command
  repeats-recall unmarshal w rt id r n = rw n refl

  repeats-program :
      (unmarshal : Unmarshal) (w : World G) (rt : Runtime) (id : ℕ) (r : Robot) (name body : String)
      (p : Program)
      → robot_by_id w id ≡ some r
      → decode unmarshal body ≡ decoded p
      → apply_command unmarshal
          (record {
            tick = w.tick;
            kind = cmd_program;
            robot = id;
            program_id = name;
            program = body;
          })
          w
          rt
        ≡ fine (write_robot w id (reprogram name), install rt name p)
  unfolding apply_command
  repeats-program unmarshal w rt id r name body p n d = rw (n, d) refl

  -- What an accepted command does to the match, and what its record says.
  pub record Applied {F : Type 0} (unmarshal : Unmarshal) (m m' : Match F G) : Type 0 where
    pub command : Command
    pub world : World G
    pub runtime : Runtime
    pub result : m' ≡ record m { world = world; runtime = runtime; log = m.log ++ command ∷ [] }
    pub running : m.finished ≡ false
    pub stamped : command.tick ≡ m.world.tick
    pub clock : world.tick ≡ m.world.tick
    pub duration : world.duration ≡ m.world.duration
    pub safe : IsSafe o m.world → IsSafe o world
    pub repeats : apply_command unmarshal command m.world m.runtime ≡ fine (world, runtime)

  module _ {F : Type 0} (unmarshal : Unmarshal) (m : Match F G) where
    pub recall_live-effect :
        (colony id : ℕ)
        → ((recall_live colony id m).0 ≡ m) ⊎ Applied unmarshal m (recall_live colony id m).0
    unfolding recall_live apply_live recall_robot robot_of
    recall_live-effect colony id = elim (Bool-cases m.finished) [
      | inl e ↦ rw e (inl refl)
      | inr e ↦ elim (Option-cases (robot_by_id m.world id)) [
        | inl n ↦ rw (e, n) (inl refl)
        | inr (r, n) ↦ elim (Bool-cases (r.colony == colony)) [
          | inl c ↦
              rw (e, n, c)
                (inr (record {
                  command = record {
                    tick = m.world.tick;
                    kind = cmd_recall;
                    robot = id;
                    program_id = "";
                    program = "";
                  };
                  world = write_robot m.world id recall;
                  runtime = m.runtime;
                  result = refl;
                  running = refl;
                  stamped = refl;
                  clock = refl;
                  duration = refl;
                  safe = write_robot-IsSafe m.world id recall recall-RobotOk;
                  repeats = repeats-recall unmarshal m.world m.runtime id r n;
                }))
          | inr c ↦ rw (e, n, c) (inl refl)
        ]
      ]
    ]

    pub install_live-effect :
        (colony id : ℕ) (name body : String)
        → ((install_live unmarshal colony id name body m).0 ≡ m)
          ⊎ Applied unmarshal m (install_live unmarshal colony id name body m).0
    unfolding install_live apply_live install_program robot_of
    install_live-effect colony id name body = elim (Decoded-cases (decode unmarshal body)) [
      | inl (x, d) ↦ rw d (inl refl)
      | inr (p, d) ↦ elim (Bool-cases m.finished) [
        | inl e ↦ rw (d, e) (inl refl)
        | inr e ↦ elim (Option-cases (robot_by_id m.world id)) [
          | inl n ↦ rw (d, e, n) (inl refl)
          | inr (r, n) ↦ elim (Bool-cases (r.colony == colony)) [
            | inr c ↦ rw (d, e, n, c) (inl refl)
            | inl c ↦ elim (Bool-cases (at_own_base m.world r)) [
              | inr b ↦ rw (d, e, n, c, b) (inl refl)
              | inl b ↦ elim (List-cases (validate_errors p.rules r.blueprint)) [
                | inr (i, is, v) ↦ rw (d, e, n, c, b, v) (inl refl)
                | inl v ↦
                    rw (d, e, n, c, b, v)
                      (inr (record {
                        command = record {
                          tick = m.world.tick;
                          kind = cmd_program;
                          robot = id;
                          program_id = name;
                          program = body;
                        };
                        world = write_robot m.world id (reprogram name);
                        runtime = install m.runtime name p;
                        result = refl;
                        running = refl;
                        stamped = refl;
                        clock = refl;
                        duration = refl;
                        safe =
                            write_robot-IsSafe m.world id (reprogram name) (reprogram-RobotOk name);
                        repeats = repeats-program unmarshal m.world m.runtime id r name body p n d;
                      }))
              ]
            ]
          ]
        ]
      ]
    ]
