-- ===== src/Lobby/Tests.antt =====
-- A small match for the tests, over fixed-point numbers in thousandths.
use robocolony.Common.{
  ==_iff, Bool, ℕ, ◌+◌, ◌*◌, ◌/◌, ◌^◌, ◌≡◌, ◌↔◌, refl, arith, false, ltb, leb, ◌==◌, min, pos, List,
  [], ◌∷◌, ◌++◌, none, some, length,
}
use robocolony.Sim.World.State.{World}
use robocolony.Sim.World.Access.{passable, inside, at, index}
use robocolony.Sim.Safety.{IsSafe}
use robocolony.Sim.Tests.{counter, world, world-IsSafe}
use robocolony.Prog.Tests.{broad, narrow}
use robocolony.Prog.Runtime.{Program, Unmarshal, new_runtime, install}
use robocolony.Lobby.Settings.{Floats, Settings, duration_ticks, u64_of_int, validate}
use robocolony.Lobby.Settings.Limits.{IsPlayable, validate-IsPlayable}
use robocolony.Lobby.History.{History, history_every, sample}
use robocolony.Lobby.History.Spaced.{IsSpaced, start-IsSpaced}
use robocolony.Lobby.Match.{Match, event_cap}
use robocolony.Lobby.Match.Clock.{IsLive, drive, drive_finishes}
use robocolony.Lobby.Match.Feed.{last_of, emitted, drive_feed}
use robocolony.Lobby.Match.Sampled.{drive-IsSpaced}
use robocolony.Lobby.Command.{CommandError, install_live}
use robocolony.Lobby.Command.Guards.{MayInstall, install_live_iff}
use robocolony.Lobby.Replay.{replay_to}
use robocolony.Lobby.Command.{fine}
use robocolony.Lobby.Replay.Inputs.{
  Input, tick_of_driver, recall_by, install_by, take_input, play, loaded, take_input-IsLive,
}
use robocolony.Lobby.Replay.Rebuilds.{replay_rebuilds}
use robocolony.Common.{◌≤◌}
use robocolony.Common.{String, Option}
use robocolony.Sim.World.Access.{robot_by_id, robot_from}
use robocolony.Lobby.Match.{Command}
use robocolony.Lobby.Command.{recall_live, apply_live, recall_robot, robot_of}
use robocolony.Lobby.Restore.{restore, restored, replay, save}
use robocolony.Lobby.Restore.Saved.{restore-save}
use robocolony.Lobby.Command.{Replayed}
use robocolony.Lobby.Replay.Total.{replay_to_total}

instance unfoldable pub thousandths : Floats ℕ
thousandths = record {
  less = ltb;
  at_most = leb;
  equal = λ a b. a == b;
  divide = λ a b. a * 1000 / b;
  literal = λ n k. n * 1000 / 10 ^ k;
  to_u64 = λ a. a / 1000;
}

abbrev pub settings : Settings ℕ
settings = record {
  duration_sec = pos 600;
  richness = 20;
  spawn_per_min = 6000;
  max_players = pos 4;
  seed = pos 7;
  starting_budget = pos 500;
  barrier_density = 80;
  arena = "M";
  ai = "peaceful" ∷ [];
}

abbrev guard : Program
guard = record { v = pos 1; name = "guard"; rules = broad ∷ narrow ∷ [] }

abbrev read_guard : Unmarshal
read_guard text = some (some guard)

abbrev empty_history : History
empty_history = record {
  interval = history_every;
  ticks = [];
  colonies = record { colony = 1; score = []; robots = []; collected = [] } ∷ [];
}

-- The world of a match has no duration of its own.
abbrev arena : World ℕ
arena = record world { duration = 0 }

arena-IsSafe : IsSafe world arena
unfolding passable inside at index
arena-IsSafe =
    let s = world-IsSafe in
    record {
      width = s.width;
      height = s.height;
      cells = s.cells;
      robots = s.robots;
      bases = s.bases;
    }

abbrev started : Match ℕ ℕ
started = record {
  settings = settings;
  world = arena;
  runtime = install new_runtime "p" guard;
  finished = false;
  log = [];
  replayed = 0;
  history = sample arena empty_history;
  events = [];
}

started-IsLive : IsLive world started
unfolding duration_ticks u64_of_int
started-IsLive = record {
  safe = arena-IsSafe;
  no_duration = refl;
  within = omega arith;
  over = refl;
}

abbrev orders : List Input
orders =
    recall_by 1 1 ∷ tick_of_driver ∷ install_by 1 1 "lib-4-v2-r1" "guard.json" ∷ tick_of_driver ∷ []

replay_rebuilds_example :
    replay_to read_guard
      (λ n. false)
      (play read_guard orders started).world.tick
      (loaded read_guard (play read_guard orders started).log started)
    ≡ some (
        fine (record (play read_guard orders started) {
          replayed = length (play read_guard orders started).log;
        }))
replay_rebuilds_example =
    replay_rebuilds read_guard (λ n. false) (λ n. refl) world started orders started-IsLive refl
      refl

take_input-IsLive_example : IsLive world (take_input read_guard (recall_by 1 1) started)
take_input-IsLive_example =
    take_input-IsLive read_guard world (recall_by 1 1) started started-IsLive

drive_finishes_example :
    ((drive 6000 started).world.tick ≡ min (duration_ticks settings) (0 + 6000))
    × ((drive 6000 started).finished ≡ leb (duration_ticks settings) (0 + 6000))
drive_finishes_example = drive_finishes world 6000 started started-IsLive

drive_feed_example : (drive 3 started).events ≡ last_of event_cap ([] ++ emitted 3 started)
drive_feed_example = drive_feed 3 started (omega arith)

started-IsSpaced : IsSpaced (sample arena empty_history) 0
started-IsSpaced =
    start-IsSpaced arena empty_history.colonies
      (record { score = refl; robots = refl; collected = refl }, tt) refl

drive-IsSpaced_example : IsSpaced (drive 3 started).history (drive 3 started).world.tick
drive-IsSpaced_example = drive-IsSpaced world 3 started started-IsLive started-IsSpaced

install_live_iff_example :
    (((install_live read_guard 1 1 "lib-4-v2-r1" "guard.json" started).1 ≡ none)
      ↔ MayInstall read_guard 1 1 started "guard.json")
    × ((e : CommandError)
        → (install_live read_guard 1 1 "lib-4-v2-r1" "guard.json" started).1 ≡ some e
        → (install_live read_guard 1 1 "lib-4-v2-r1" "guard.json" started).0 ≡ started)
install_live_iff_example = install_live_iff read_guard 1 1 started "lib-4-v2-r1" "guard.json"

validate-IsPlayable_example : (validate settings ≡ none) ↔ IsPlayable settings
validate-IsPlayable_example = validate-IsPlayable settings

abbrev recalled_once : List Input
recalled_once = recall_by 1 1 ∷ tick_of_driver ∷ []

still_running : (play read_guard recalled_once started).finished ≡ false
unfolding play take_input drive recall_live apply_live recall_robot robot_of robot_by_id robot_from
    duration_ticks u64_of_int
still_running =
    (drive_finishes world 1 (take_input read_guard (recall_by 1 1) started)
      (take_input-IsLive read_guard world (recall_by 1 1) started started-IsLive)).1

within_limit : duration_ticks settings ≤ 2 ^ 63
unfolding duration_ticks u64_of_int
within_limit = omega arith

abbrev encode_all : List Command → Option String
encode_all log = some "commands"

abbrev decode_all : String → Option (List Command)
decode_all text = some (play read_guard recalled_once started).log

-- A registry that takes the matches whose commands are all replayed.
abbrev takes_replayed : Match ℕ ℕ → Bool
takes_replayed m = m.replayed == length m.log

restore-save_example :
    restore takes_replayed "build"
      (replay read_guard decode_all (λ n. false) (some started) (duration_ticks settings))
      (save encode_all "build" (play read_guard recalled_once started))
    ≡ restored (record (play read_guard recalled_once started) {
      replayed = length (play read_guard recalled_once started).log;
    })
restore-save_example =
    restore-save read_guard takes_replayed (λ n. false) decode_all (λ n. refl) encode_all "build"
      "commands" world started recalled_once started-IsLive refl refl refl still_running
      within_limit refl refl ((==_iff _ _).1 refl)

replay_to_total_example :
    (r : Replayed (Match ℕ ℕ)) × (replay_to read_guard (λ n. false) 5 started ≡ some r)
replay_to_total_example = replay_to_total world read_guard (λ n. false) 5 started started-IsLive
