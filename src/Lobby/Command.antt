-- ===== src/Lobby/Command.antt =====
-- The players' commands: `Match.Apply` of internal/lobby/match.go, `Recall` and `InstallProgram` of
-- internal/server/robots.go, and `Command.apply`, which repeats a recorded one, of
-- internal/lobby/persist.go. The report that a command gives back is left out.
pub mod Repeats
pub mod Guards
use robocolony.Common.{
  ℕ, ◌==◌, Bool, true, false, not, if◌then◌else◌, String, List, [], ◌∷◌, ◌++◌, Option, none, some,
  replicate,
}
use robocolony.Sim.World.State.{World, Robot}
use robocolony.Sim.World.Access.{mem_points, at_own_base, robot_by_id}
use robocolony.Sim.Actions.Apply.{unset_point}
use robocolony.Prog.Structure.{Issue, validate_errors}
use robocolony.Prog.Runtime.{
  Runtime, Program, Unmarshal, Decoded, refused, decoded, decode, install,
}
use robocolony.Lobby.Match.{Match, Command, CommandKind, cmd_recall, cmd_program, cmd_other}

-- `Reprogram` of internal/sim/world.go.
unfoldable pub reprogram : String → Robot → Robot
reprogram id r = record r {
  program_id = id;
  memory = replicate mem_points unset_point;
  recalled = false;
  path_blocked = false;
  target_reached = false;
  target_unreachable = false;
}

abbrev pub recall : Robot → Robot
recall r = record r { recalled = true }

-- A write through the pointer that `RobotByID` returns: to the first robot with the id.
unfoldable pub modify_robot : ℕ → (Robot → Robot) → List Robot → List Robot
modify_robot id f [] = []
modify_robot id f (r ∷ rs) =
    let rest = modify_robot id f rs in if r.id == id then f r ∷ rs else r ∷ rest

pub data CommandError : Type 0 where
  match_not_found match_over no_colony no_robot other_colony no_program program_does_not_load
        not_at_base :
      CommandError
  invalid_program : List Issue → CommandError

pub data Result {ℓ} (A : Type ℓ) : Type ℓ where
  failed : CommandError → Result A
  done : A → Result A

-- The seats of a match: the user and the colony of each.
abbrev pub Seats : Type 0
Seats = List (ℕ × ℕ)

unfoldable pub seat_of : ℕ → Seats → Option ℕ
seat_of user [] = none
seat_of user ((u, colony) ∷ seats) = if u == user then some colony else seat_of user seats

abbrev pub own_robot : ℕ → Option Robot → Result Robot
own_robot colony none = failed no_robot
own_robot colony (some r) = if not (r.colony == colony) then failed other_colony else done r

module _ {G : Type 0} where
  abbrev pub write_robot : World G → ℕ → (Robot → Robot) → World G
  write_robot w id f = record w { robots = modify_robot id f w.robots }

  -- `robotOf`.
  unfoldable pub robot_of : World G → ℕ → ℕ → Result Robot
  robot_of w colony id = own_robot colony (robot_by_id w id)

  -- The callback of `Recall`.
  abbrev recall_own : World G → Runtime → ℕ → Result Robot → Result (World G × Runtime)
  recall_own w rt id (failed e) = failed e
  recall_own w rt id (done r) = done (write_robot w id recall, rt)

  unfoldable pub recall_robot : ℕ → ℕ → World G → Runtime → Result (World G × Runtime)
  recall_robot colony id w rt = recall_own w rt id (robot_of w colony id)

  -- The program is valid for the robot, or it is refused with its issues.
  abbrev install_valid :
      World G → Runtime → ℕ → String → Program → List Issue → Result (World G × Runtime)
  install_valid w rt id name p [] = done (write_robot w id (reprogram name), install rt name p)
  install_valid w rt id name p (i ∷ is) = failed (invalid_program (i ∷ is))

  -- The callback of `InstallProgram`.
  abbrev install_own :
      World G → Runtime → ℕ → String → Program → Result Robot → Result (World G × Runtime)
  install_own w rt id name p (failed e) = failed e
  install_own w rt id name p (done r) =
      if not (at_own_base w r)
      then failed not_at_base
      else install_valid w rt id name p (validate_errors p.rules r.blueprint)

  unfoldable pub install_program :
      ℕ → ℕ → String → Program → World G → Runtime → Result (World G × Runtime)
  install_program colony id name p w rt = install_own w rt id name p (robot_of w colony id)

module _ {F G : Type 0} where
  -- What `Apply` does with the result of the callback.
  abbrev pub recorded :
      Match F G → Command → Result (World G × Runtime) → Match F G × Option CommandError
  recorded m cmd (failed e) = (m, some e)
  recorded m cmd (done (w, rt)) =
      (record m { world = w; runtime = rt; log = m.log ++ record cmd { tick = w.tick } ∷ [] }, none)

  -- `Apply`.
  unfoldable pub apply_live :
      Match F G
      → Command
      → (World G → Runtime → Result (World G × Runtime))
      → Match F G × Option CommandError
  apply_live m cmd f =
      if m.finished then (m, some match_over) else recorded m cmd (f m.world m.runtime)

  -- `own`: the registry's match, and the caller's colony in it.
  unfoldable pub own : Option (Match F G × Seats) → ℕ → Result (Match F G × ℕ)
  own none user = failed match_not_found
  own (some (m, seats)) user =
      if m.finished
      then failed match_over
      else elim (seat_of user seats) [ none ↦ failed no_colony | some colony ↦ done (m, colony) ]

  -- The part of `Recall` on a match and colony that are found.
  unfoldable pub recall_live : ℕ → ℕ → Match F G → Match F G × Option CommandError
  recall_live colony id m =
      apply_live m
        (record { tick = 0; kind = cmd_recall; robot = id; program_id = ""; program = "" })
        (recall_robot colony id)

  -- The part of `InstallProgram` once the library has given the text of the approved version, and
  -- `name` is the id of the install.
  abbrev install_decoded :
      ℕ → ℕ → String → String → Match F G → Decoded → Match F G × Option CommandError
  install_decoded colony id name body m (refused e) = (m, some program_does_not_load)
  install_decoded colony id name body m (decoded p) =
      apply_live m
        (record { tick = 0; kind = cmd_program; robot = id; program_id = name; program = body })
        (install_program colony id name p)

  unfoldable pub install_live :
      Unmarshal → ℕ → ℕ → String → String → Match F G → Match F G × Option CommandError
  install_live unmarshal colony id name body m =
      install_decoded colony id name body m (decode unmarshal body)

-- The errors of a replayed command, and of a replay.
pub data ReplayError : Type 0 where
  cancelled out_of_order ended_early robot_missing program_refused unknown_kind bad_record :
      ReplayError

pub data Replayed {ℓ} (A : Type ℓ) : Type ℓ where
  broken : ReplayError → Replayed A
  fine : A → Replayed A

module _ {G : Type 0} where
  -- `apply` of a command whose robot exists, by the kind.
  abbrev pub repeat_program : World G → Runtime → Command → Decoded → Replayed (World G × Runtime)
  repeat_program w rt c (refused e) = broken program_refused
  repeat_program w rt c (decoded p) =
      fine (write_robot w c.robot (reprogram c.program_id), install rt c.program_id p)

  abbrev pub repeat_kind :
      Unmarshal → World G → Runtime → Command → CommandKind → Replayed (World G × Runtime)
  repeat_kind unmarshal w rt c cmd_recall = fine (write_robot w c.robot recall, rt)
  repeat_kind unmarshal w rt c cmd_program = repeat_program w rt c (decode unmarshal c.program)
  repeat_kind unmarshal w rt c cmd_other = broken unknown_kind

  abbrev repeat_found :
      Unmarshal → World G → Runtime → Command → Option Robot → Replayed (World G × Runtime)
  repeat_found unmarshal w rt c none = broken robot_missing
  repeat_found unmarshal w rt c (some r) = repeat_kind unmarshal w rt c c.kind

  -- `Command.apply`.
  unfoldable pub apply_command :
      Unmarshal → Command → World G → Runtime → Replayed (World G × Runtime)
  apply_command unmarshal c w rt = repeat_found unmarshal w rt c (robot_by_id w c.robot)
