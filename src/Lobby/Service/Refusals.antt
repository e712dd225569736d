-- ===== src/Lobby/Service/Refusals.antt =====
-- A request that is answered with an error leaves the room as it was.
use robocolony.Common.{
  ℕ, ◌==◌, ltb, ◌≡◌, refl, sym, ap, ◌∙◌, ◌⊎◌, ℤ, pos, ltb_ℤ, Bool, true, not, ◌&&◌, inl, inr,
  Bool-cases, Option-cases, String, List, Option, none, some, length, and_parts,
}
use robocolony.Lobby.Settings.{Floats, validate}
use robocolony.Lobby.Service.{
  Room, LobbyState, LobbyError, lobby_open, lobby_running, lobby_finished, is_open, is_member,
  join_room, leave_room, leave_checked, loadout_room, loadout_checked, settings_room, flip_room,
  start_checked, end_room, ai_checked, Request, join, leave, set_ai, set_loadout, start,
  match_ended, serve_room, max_loadout_entries,
}

is_open→≡ : (s : LobbyState) → is_open s ≡ true → lobby_open ≡ s
is_open→≡ lobby_open h = refl
is_open→≡ lobby_running h = absurd cc
is_open→≡ lobby_finished h = absurd cc

module _ {F : Type 0} where
  -- A request has no error, or leaves the room as it was.
  Settled : Room F → Room F × Option LobbyError → Type 0
  Settled r answer = (answer.1 ≡ none) ⊎ (answer.0 ≡ r)

  join_room-Settled : (user : ℕ) (max : ℤ) (r : Room F) → Settled r (join_room user max r)
  unfolding join_room Settled
  join_room-Settled user max r =
      elim (Bool-cases
        (is_open r.state && ltb_ℤ (pos (length r.members)) max && not (is_member user r.members))) [
          | inl e ↦ rw e (inl refl)
          | inr e ↦ elim (Bool-cases (is_member user r.members)) [
            | inl d ↦ rw (e, d) (inl refl)
            | inr d ↦ elim (Bool-cases (is_open r.state)) [
              | inl o ↦ rw (e, d, o) (inr refl)
              | inr o ↦ rw (e, d, o) (inr refl)
            ]
          ]
        ]

  leave_checked-Settled : (user : ℕ) (r : Room F) → Settled r (leave_checked user r)
  unfolding leave_checked leave_room Settled
  leave_checked-Settled user r = elim (Bool-cases (r.owner == user)) [
    | inl e ↦ rw e (inr refl)
    | inr e ↦ elim (Bool-cases (is_open r.state && is_member user r.members)) [
      | inl d ↦ rw (e, d) (inl refl)
      | inr d ↦ rw (e, d) (inr refl)
    ]
  ]

  loadout_checked-Settled :
      (user n : ℕ) (text : Option String) (r : Room F) → Settled r (loadout_checked user n text r)
  unfolding loadout_checked loadout_room Settled
  loadout_checked-Settled user n none r = inr refl
  loadout_checked-Settled user n (some text) r = elim (Bool-cases (ltb max_loadout_entries n)) [
    | inl e ↦ rw e (inr refl)
    | inr e ↦ elim (Bool-cases (is_open r.state && is_member user r.members)) [
      | inl d ↦ rw (e, d) (inl refl)
      | inr d ↦ rw (e, d) (inr refl)
    ]
  ]

  reopened : (r : Room F) → is_open r.state ≡ true → record r { state = lobby_open } ≡ r
  reopened r h = ap (λ s. record r { state = s }) (is_open→≡ r.state h)

  start_checked-Settled :
      (starts : Room F → Bool) (user : ℕ) (r : Room F) → Settled r (start_checked starts user r)
  unfolding start_checked flip_room Settled
  start_checked-Settled starts user r = elim (Bool-cases ((r.owner == user) && is_open r.state)) [
    | inr e ↦ rw e (inr refl)
    | inl e ↦
        let same = reopened r (and_parts (r.owner == user) (is_open r.state) e).1 in
        elim (Bool-cases (length r.members == 0)) [
          | inl z ↦ rw (e, z) (inr same)
          | inr z ↦ elim (Bool-cases (starts (record r { state = lobby_running }))) [
            | inl s ↦ rw (e, z, s) (inl refl)
            | inr s ↦ rw (e, z, s) (inr same)
          ]
        ]
  ]

module _ {F : Type 0} ⦃fl : Floats F⦄ where
  ai_checked-Settled : (user : ℕ) (ps : List String) (r : Room F) → Settled r (ai_checked user ps r)
  unfolding ai_checked settings_room Settled
  ai_checked-Settled user ps r = elim (Bool-cases (r.owner == user)) [
    | inr e ↦ rw e (inr refl)
    | inl e ↦ elim (Option-cases (validate (record r.settings { ai = ps }))) [
      | inr (x, v) ↦ rw (e, v) (inr refl)
      | inl v ↦ elim (Bool-cases (is_open r.state)) [
        | inr o ↦ rw (e, v, e, o) (inr refl)
        | inl o ↦ rw (e, v, e, o) (inl refl)
      ]
    ]
  ]

  serve_room-Settled :
      (starts : Room F → Bool) (q : Request) (r : Room F) → Settled r (serve_room starts q r)
  unfolding serve_room end_room Settled
  serve_room-Settled starts (join user) r = join_room-Settled user r.settings.max_players r
  serve_room-Settled starts (leave user) r = leave_checked-Settled user r
  serve_room-Settled starts (set_ai user ps) r = ai_checked-Settled user ps r
  serve_room-Settled starts (set_loadout user n text) r = loadout_checked-Settled user n text r
  serve_room-Settled starts (start user) r = start_checked-Settled starts user r
  serve_room-Settled starts match_ended r = inl refl

  -- A request that is answered with an error leaves the room as it was; also a start that fails after
  -- it has moved the room to running.
  pub serve_room_refused :
      (starts : Room F → Bool) (q : Request) (r : Room F) (e : LobbyError)
      → (serve_room starts q r).1 ≡ some e
      → (serve_room starts q r).0 ≡ r
  unfolding Settled
  serve_room_refused starts q r e h = elim (serve_room-Settled starts q r) [
    | inl n ↦ let no : none ≡ some e = sym n ∙ h in absurd cc
    | inr s ↦ s
  ]
