-- ===== src/Lobby/Service/Tests.antt =====
-- A lobby of two players, for the tests.
use robocolony.Common.{true, ◌+ℤ◌}
use robocolony.Common.{ℕ, ◌≡◌, refl, ◌==◌, pos, List, [], ◌∷◌, some, length}
use robocolony.Sim.Tests.{counter}
use robocolony.Lobby.Settings.{validate}
use robocolony.Common.{Bool, ◌≤◌}
use robocolony.Common.Assoc.{lookup, assign}
use robocolony.Lobby.Settings.{
  bad_budget_of, bad_density_of, bad_arena_of, check_profiles, valid_profile, colonies,
  max_players_limit,
}
use robocolony.Lobby.Service.{
  Room, Seat, lobby_running, already_started, join, set_ai, start, is_member, join_room, flip_room,
  start_checked, serve_room, serve, create,
}
use robocolony.Lobby.Service.Rooms.{IsRoom}
use robocolony.Lobby.Service.Tables.{
  Call, creates, serves, handle, handle_all, no_lobbies, handle_all-IsRoom,
}
use robocolony.Lobby.Service.Frozen.{IsFrozen, serve_all, serve_all-IsFrozen}
use robocolony.Lobby.Service.Refusals.{serve_room_refused}
use robocolony.Lobby.Tests.{settings, thousandths}

abbrev always : Room ℕ → Bool
always r = true

abbrev calls : List (Call ℕ)
calls = creates 1 "arena" settings (pos 9) ∷ serves 1 (join 2) ∷ serves 1 (start 1) ∷ []

abbrev seat : ℕ → Seat
seat user = record { user = user; loadout = "" }

abbrev lobby : Room ℕ
lobby = record {
  owner = 1;
  name = "arena";
  settings = record settings { seed = pos 9 };
  state = lobby_running;
  members = seat 1 ∷ seat 2 ∷ [];
}

lobby-found : lookup (λ i j. i == j) (handle_all always calls no_lobbies).rooms 1 ≡ some lobby
unfolding handle_all handle create serve serve_room start_checked flip_room join_room is_member
    assign lookup validate bad_budget_of bad_density_of bad_arena_of check_profiles valid_profile
    thousandths ◌+ℤ◌
lobby-found = refl

handle_all-IsRoom_example :
    IsRoom lobby × (colonies lobby.settings (length lobby.members) ≤ max_players_limit)
handle_all-IsRoom_example = handle_all-IsRoom always calls 1 lobby lobby-found

serve_all-IsFrozen_example :
    IsFrozen always lobby (serve_all always (join 3 ∷ set_ai 1 [] ∷ start 1 ∷ []) lobby)
serve_all-IsFrozen_example =
    serve_all-IsFrozen always (join 3 ∷ set_ai 1 [] ∷ start 1 ∷ []) lobby refl

join-refused : (serve_room always (join 3) lobby).1 ≡ some already_started
unfolding serve_room join_room is_member
join-refused = refl

serve_room_refused_example : (serve_room always (join 3) lobby).0 ≡ lobby
serve_room_refused_example = serve_room_refused always (join 3) lobby already_started join-refused
