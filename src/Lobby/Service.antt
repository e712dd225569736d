-- ===== src/Lobby/Service.antt =====
-- The lobbies and who sits in them: `Create`, `Join`, `SetAI`, `SetLoadout`, `Leave`, `Start` and
-- `matchEnded` of internal/lobby/lobby.go on the tables of internal/db/lobbies.go. A room is a row of
-- the table of lobbies with its rows of the table of members, in join order; its settings are what
-- its JSON encodes. A database that fails, and the views that the calls return, are left out.
pub mod Seats
pub mod Frozen
pub mod Rooms
pub mod Refusals
pub mod Tables
mod Tests
use robocolony.Common.{
  ℕ, ◌+◌, ltb, ◌==◌, ℤ, pos, ltb_ℤ, Bool, true, false, not, ◌&&◌, ◌||◌, if◌then◌else◌, String, List,
  [], ◌∷◌, ◌++◌, Option, none, some, length, keep, map,
}
use robocolony.Common.Assoc.{lookup, assign}
use Prim.Native.String.{len}
use robocolony.Prog.Catalogue.{eq_string}
use robocolony.Lobby.Settings.{Floats, Settings, SettingsError, validate}

pub data LobbyState : Type 0 where
  lobby_open lobby_running lobby_finished : LobbyState

-- A member's seat, with the loadout as the text that is stored.
pub record Seat : Type 0 where
  pub user : ℕ
  pub loadout : String

pub record Room (F : Type 0) : Type 0 where
  pub owner : ℕ
  pub name : String
  pub settings : Settings F
  pub state : LobbyState
  pub members : List Seat

pub data LobbyError : Type 0 where
  name_required name_too_long lobby_not_found lobby_full already_started owner_only
        owner_cannot_leave not_in_lobby too_many_blueprints loadout_refused lobby_empty
        start_failed :
      LobbyError
  bad_settings : SettingsError → LobbyError

abbrev pub is_open : LobbyState → Bool
is_open lobby_open = true
is_open lobby_running = false
is_open lobby_finished = false

unfoldable pub is_member : ℕ → List Seat → Bool
is_member user [] = false
is_member user (s ∷ ss) = s.user == user || is_member user ss

abbrev pub new_seat : ℕ → Seat
new_seat user = record { user = user; loadout = "" }

unfoldable pub put_loadout : ℕ → String → Seat → Seat
put_loadout user text s = if s.user == user then record s { loadout = text } else s

abbrev pub max_loadout_entries : ℕ
max_loadout_entries = 18

module _ {F : Type 0} where
  -- `JoinLobby`: the insert, which passes over a seat that is taken; or else the reason.
  unfoldable pub join_room : ℕ → ℤ → Room F → Room F × Option LobbyError
  join_room user max_players r =
      if is_open r.state
        && ltb_ℤ (pos (length r.members)) max_players
        && not (is_member user r.members)
      then (record r { members = r.members ++ new_seat user ∷ [] }, none)
      else if is_member user r.members
      then (r, none)
      else if not (is_open r.state)
      then (r, some already_started)
      else (r, some lobby_full)

  -- `LeaveLobby`.
  unfoldable pub leave_room : ℕ → Room F → Room F × Option LobbyError
  leave_room user r =
      if is_open r.state && is_member user r.members
      then (record r { members = keep (λ s. not (s.user == user)) r.members }, none)
      else (r, some not_in_lobby)

  -- `SetLobbyLoadout`.
  unfoldable pub loadout_room : ℕ → String → Room F → Room F × Option LobbyError
  loadout_room user text r =
      if is_open r.state && is_member user r.members
      then (record r { members = map (put_loadout user text) r.members }, none)
      else (r, some not_in_lobby)

  -- `UpdateLobbySettings`.
  unfoldable pub settings_room : ℕ → Settings F → Room F → Room F × Option LobbyError
  settings_room user s r =
      if (r.owner == user) && is_open r.state
      then (record r { settings = s }, none)
      else (r, some already_started)

  -- `StartLobby`, whether it matched the row.
  unfoldable pub flip_room : ℕ → Room F → Room F × Bool
  flip_room user r =
      if (r.owner == user) && is_open r.state
      then (record r { state = lobby_running }, true)
      else (r, false)

  -- The part of `Leave` after the lobby is found.
  unfoldable pub leave_checked : ℕ → Room F → Room F × Option LobbyError
  leave_checked user r = if r.owner == user then (r, some owner_cannot_leave) else leave_room user r

  -- The part of `SetLoadout` after the lobby is found: the choices that were asked for, and the text
  -- of what they resolve to in the caller's library, if they do.
  unfoldable pub loadout_checked : ℕ → ℕ → Option String → Room F → Room F × Option LobbyError
  loadout_checked user choices none r =
      (r, some (if ltb max_loadout_entries choices then too_many_blueprints else loadout_refused))
  loadout_checked user choices (some text) r =
      if ltb max_loadout_entries choices
      then (r, some too_many_blueprints)
      else loadout_room user text r

  -- The part of `Start` after the lobby is found. `starts` says whether a match can be made of the
  -- room as it stands and registered; if not, the room is opened again.
  abbrev pub launched : (Room F → Bool) → Room F → Room F × Option LobbyError
  launched starts r =
      if length r.members == 0
      then (record r { state = lobby_open }, some lobby_empty)
      else if starts r
      then (r, none)
      else (record r { state = lobby_open }, some start_failed)

  abbrev pub flipped : (Room F → Bool) → ℕ → Room F → Room F × Bool → Room F × Option LobbyError
  flipped starts user r (r', true) = launched starts r'
  flipped starts user r (r', false) =
      (r, some (if not (r.owner == user) then owner_only else already_started))

  unfoldable pub start_checked : (Room F → Bool) → ℕ → Room F → Room F × Option LobbyError
  start_checked starts user r = flipped starts user r (flip_room user r)

  -- `matchEnded`.
  unfoldable pub end_room : Room F → Room F × Option LobbyError
  end_room r = (record r { state = lobby_finished }, none)

-- A call of a player on a room that exists, or the end of its match.
pub data Request : Type 0 where
  join : ℕ → Request
  leave : ℕ → Request
  set_ai : ℕ → List String → Request
  set_loadout : ℕ → ℕ → Option String → Request
  start : ℕ → Request
  match_ended : Request

-- The rooms by their ids, and the next id.
pub record Lobbies (F : Type 0) : Type 0 where
  pub rooms : List (ℕ × Room F)
  pub next : ℕ

module _ {F : Type 0} ⦃fl : Floats F⦄ where
  -- The part of `SetAI` after the lobby is found.
  abbrev settings_valid :
      ℕ → Settings F → Room F → Option SettingsError → Room F × Option LobbyError
  settings_valid user s r none = settings_room user s r
  settings_valid user s r (some e) = (r, some (bad_settings e))

  unfoldable pub ai_checked : ℕ → List String → Room F → Room F × Option LobbyError
  ai_checked user profiles r =
      let s = record r.settings { ai = profiles } in
      if not (r.owner == user) then (r, some owner_only) else settings_valid user s r (validate s)

  unfoldable pub serve_room : (Room F → Bool) → Request → Room F → Room F × Option LobbyError
  serve_room starts (join user) r = join_room user r.settings.max_players r
  serve_room starts (leave user) r = leave_checked user r
  serve_room starts (set_ai user profiles) r = ai_checked user profiles r
  serve_room starts (set_loadout user choices text) r = loadout_checked user choices text r
  serve_room starts (start user) r = start_checked starts user r
  serve_room starts match_ended r = end_room r

  abbrev served :
      Lobbies F
      → ℕ
      → Option (Room F)
      → (Room F → Room F × Option LobbyError)
      → Lobbies F × Option LobbyError
  served l id none f = (l, some lobby_not_found)
  served l id (some r) f =
      let (r', e) = f r in (record l { rooms = assign (λ i j. i == j) l.rooms id r' }, e)

  unfoldable pub serve : (Room F → Bool) → ℕ → Request → Lobbies F → Lobbies F × Option LobbyError
  serve starts id q l = served l id (lookup (λ i j. i == j) l.rooms id) (serve_room starts q)

  -- `Create`, with the seed that the server has drawn.
  abbrev opened :
      Lobbies F → ℕ → String → Settings F → Option SettingsError → Lobbies F × Option LobbyError
  opened l user name s (some e) = (l, some (bad_settings e))
  opened l user name s none = (
    record {
      rooms =
          l.rooms
          ++ (
            l.next,
            record {
              owner = user;
              name = name;
              settings = s;
              state = lobby_open;
              members = new_seat user ∷ [];
            },
          )
            ∷ [];
      next = l.next + 1;
    },
    none,
  )

  unfoldable pub create : ℕ → String → Settings F → ℤ → Lobbies F → Lobbies F × Option LobbyError
  create user name s seed l =
      if eq_string name ""
      then (l, some name_required)
      else if ltb 64 (len name)
      then (l, some name_too_long)
      else opened l user name (record s { seed = seed }) (validate s)
