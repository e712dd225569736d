-- ===== src/Lobby/Restore.antt =====
-- Saving a match and putting it back after a restart: `save`, `restore` and `Restore` of
-- internal/lobby/lobby.go, `newReplay` and `replay` of internal/lobby/persist.go, and `record` of
-- internal/lobby/match.go. The JSON of the commands, the fingerprint of the build and the match that
-- the room's settings and seats give are arguments, and so is whether the registry of running matches
-- takes a match; the summary of a finished match, the times and a database that fails are left out.
pub mod Saved
use robocolony.Common.{
  ℕ, ◌+◌, ◌-◌, ◌^◌, ltb, leb, ℤ, pos, negsuc, ltb_ℤ, Bool, true, false, not, ◌&&◌, if◌then◌else◌,
  String, List, [], ◌∷◌, Option, none, some, length,
}
use robocolony.Sim.World.State.{Rng}
use robocolony.Prog.Catalogue.{eq_string}
use robocolony.Prog.Runtime.{Unmarshal}
use robocolony.Lobby.Settings.{Floats, u64_of_int, duration_ticks}
use robocolony.Lobby.Match.{Match, Command}
use robocolony.Lobby.Command.{Replayed, broken, fine, ReplayError, cancelled, bad_record}
use robocolony.Lobby.Replay.{replay_to}
use robocolony.Lobby.Service.{Room, lobby_finished}

-- `finished_at` says whether the time is set.
pub record MatchLog : Type 0 where
  pub fingerprint : String
  pub tick : ℤ
  pub finished_at : Bool
  pub commands : String

-- `int64` of a `uint64`.
unfoldable pub int_of_u64 : ℕ → ℤ
int_of_u64 n = if ltb n (2 ^ 63) then pos n else negsuc (2 ^ 64 - 1 - n)

module _ {F G : Type 0} where
  abbrev record_of : String → Match F G → Option String → Option MatchLog
  record_of build m none = none
  record_of build m (some text) = some (record {
    fingerprint = build;
    tick = int_of_u64 m.world.tick;
    finished_at = m.finished;
    commands = text;
  })

  -- `save`: the record that is written, if the commands can be encoded.
  unfoldable pub save : (List Command → Option String) → String → Match F G → Option MatchLog
  save encode build m = record_of build m (encode m.log)

  module _ ⦃fl : Floats F⦄ ⦃g : Rng G⦄ where
    abbrev with_log : Option (Match F G) → List Command → Replayed (Match F G)
    with_log none log = broken bad_record
    with_log (some m) log = fine (record m { log = log })

    -- `newReplay` once the commands are decoded; `fresh` is what `newMatch` gives.
    abbrev new_decoded :
        Option (Match F G) → ℕ → MatchLog → Option (List Command) → Replayed (Match F G)
    new_decoded fresh end rec none = broken bad_record
    new_decoded fresh end rec (some log) =
        if ltb_ℤ rec.tick (pos 0)
        then broken bad_record
        else if ltb end (u64_of_int rec.tick)
        then broken bad_record
        else with_log fresh log

    unfoldable pub new_replay :
        (String → Option (List Command)) → Option (Match F G) → ℕ → MatchLog → Replayed (Match F G)
    new_replay decode fresh end rec = new_decoded fresh end rec (decode rec.commands)

    -- The last test of `replay`: every command has been replayed.
    abbrev all_replayed : Option (Replayed (Match F G)) → Option (Replayed (Match F G))
    all_replayed none = none
    all_replayed (some (broken e)) = some (broken e)
    all_replayed (some (fine m)) =
        if ltb m.replayed (length m.log) then some (broken bad_record) else some (fine m)

    abbrev replay_fresh :
        Unmarshal → (ℕ → Bool) → ℕ → MatchLog → Replayed (Match F G) → Option (Replayed (Match F G))
    replay_fresh unmarshal ctx_err end rec (broken e) = some (broken e)
    replay_fresh unmarshal ctx_err end rec (fine m) =
        if leb end (u64_of_int rec.tick) && not rec.finished_at
        then some (broken bad_record)
        else all_replayed (replay_to unmarshal ctx_err (u64_of_int rec.tick) m)

    -- `replay`; `none` is a replay that runs out of fuel.
    unfoldable pub replay :
        Unmarshal
        → (String → Option (List Command))
        → (ℕ → Bool)
        → Option (Match F G)
        → ℕ
        → MatchLog
        → Option (Replayed (Match F G))
    replay unmarshal decode ctx_err fresh end rec =
        replay_fresh unmarshal ctx_err end rec (new_replay decode fresh end rec)

-- What `restore` gives for one lobby.
pub data Restored (F G : Type 0) : Type 0 where
  restored : Match F G → Restored F G
  match_is_history not_restorable interrupted : Restored F G

module _ {F G : Type 0} where
  -- What is left of a replay; `starts` says whether `reg.Start` takes the match.
  abbrev pub restored_of : (Match F G → Bool) → Option (Replayed (Match F G)) → Restored F G
  restored_of starts none = not_restorable
  restored_of starts (some (fine m)) = if starts m then restored m else not_restorable
  restored_of starts (some (broken cancelled)) = interrupted
  restored_of starts (some (broken _)) = not_restorable

  -- `restore`; `again` is the replay of the record.
  unfoldable pub restore :
      (Match F G → Bool)
      → String
      → (MatchLog → Option (Replayed (Match F G)))
      → Option MatchLog
      → Restored F G
  restore starts build again none = not_restorable
  restore starts build again (some rec) =
      if rec.finished_at
      then match_is_history
      else if not (eq_string rec.fingerprint build)
      then not_restorable
      else restored_of starts (again rec)

  -- The round of the loop of `Restore` for one room and its record: the two as they are left.
  unfoldable pub settle : Room F → Option MatchLog → Restored F G → Room F × Option MatchLog
  settle r rec (restored m) = (r, rec)
  settle r rec interrupted = (r, rec)
  settle r rec match_is_history = (record r { state = lobby_finished }, rec)
  settle r rec not_restorable = (record r { state = lobby_finished }, none)
