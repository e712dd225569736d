-- ===== src/Lobby/Service/Rooms.antt =====
-- The invariant of a room, and that every request keeps it.
use robocolony.Common.{
  ◌≤ℤ◌, ℕ, ◌+◌, ◌==◌, ◌≡◌, ◌≤◌, refl, sym, subst, ◌∙◌, arith, ltb, Bool, true, false, not, ◌&&◌,
  inl, inr, Bool-cases, Option-cases, String, List, [], ◌∷◌, Option, none, some, length, ltb→lt,
  and_parts, length-append, length-map, ℤ, pos, negsuc, ltb_ℤ, ◌+ℤ◌, +ℤ_parts, pos_part, neg_part,
}
use robocolony.Lobby.Settings.{Floats, validate, colonies, max_players_limit}
use robocolony.Lobby.Settings.Limits.{IsPlayable, validate-IsPlayable}
use robocolony.Lobby.Service.{
  Room, LobbyState, lobby_running, new_seat, is_open, is_member, join_room, leave_room,
  leave_checked, put_loadout, loadout_room, loadout_checked, settings_room, flip_room,
  start_checked, end_room, ai_checked, Request, join, leave, set_ai, set_loadout, start,
  match_ended, serve_room, max_loadout_entries,
}
use robocolony.Lobby.Service.Seats.{
  Distinct, Distinct-append, is_member-append_true, Distinct-keep, is_member-keep_other,
  length-keep, is_member-map, Distinct-map,
}

-- A number of seats that a limit allows.
unfoldable pub Allows : ℤ → ℕ → Type 0
Allows (pos k) n = n ≤ k
Allows (negsuc k) n = ⊥

Allows-suc : (m : ℤ) (n : ℕ) → ltb_ℤ (pos n) m ≡ true → Allows m (n + 1)
unfolding Allows
Allows-suc (pos k) n h = let lt = ltb→lt (n + 0) (k + 0) h in omega arith
Allows-suc (negsuc k) n h =
    let lt =
      ltb→lt (pos_part (pos n) + neg_part (negsuc k)) (pos_part (negsuc k) + neg_part (pos n)) h in
    absurd (omega arith)

Allows-le : (m : ℤ) (n n' : ℕ) → n' ≤ n → Allows m n → Allows m n'
unfolding Allows
Allows-le (pos k) n n' h a = omega arith
Allows-le (negsuc k) n n' h a = a

Allows-colonies :
    (m : ℤ) (n a : ℕ) → Allows m n → m +ℤ pos a ≤ℤ pos max_players_limit → n + a ≤ max_players_limit
unfolding Allows ◌+ℤ◌
Allows-colonies (pos k) n a h e = let p = +ℤ_parts (pos k) (pos a) in omega arith
Allows-colonies (negsuc k) n a h e = absurd h

taken : (b : Bool) → not b ≡ true → b ≡ false
taken true h = absurd cc
taken false h = refl

module _ {F : Type 0} ⦃fl : Floats F⦄ where
  pub record IsRoom (r : Room F) : Type 0 where
    pub playable : IsPlayable r.settings
    pub seats : Allows r.settings.max_players (length r.members)
    pub distinct : Distinct r.members
    pub owned : is_member r.owner r.members ≡ true

  join_room-IsRoom :
      (user : ℕ) (r : Room F) → IsRoom r → IsRoom (join_room user r.settings.max_players r).0
  unfolding join_room
  join_room-IsRoom user r k =
      let free = ltb_ℤ (pos (length r.members)) r.settings.max_players in
      elim (Bool-cases (is_open r.state && free && not (is_member user r.members))) [
        | inl e ↦
            let p = and_parts (is_open r.state && free) _ e in
            let q = and_parts (is_open r.state) free p.0 in
            rw e (record {
              playable = k.playable;
              seats =
                  subst (Allows r.settings.max_players)
                    (sym (length-append r.members (new_seat user ∷ [])))
                    (Allows-suc r.settings.max_players (length r.members) q.1);
              distinct =
                  Distinct-append user r.members (taken (is_member user r.members) p.1) k.distinct;
              owned = is_member-append_true r.owner user r.members k.owned;
            })
        | inr e ↦ elim (Bool-cases (is_member user r.members)) [
          | inl d ↦ rw (e, d) k
          | inr d ↦ elim (Bool-cases (is_open r.state)) [
            | inl o ↦ rw (e, d, o) k
            | inr o ↦ rw (e, d, o) k
          ]
        ]
      ]

  leave_checked-IsRoom : (user : ℕ) (r : Room F) → IsRoom r → IsRoom (leave_checked user r).0
  unfolding leave_checked leave_room
  leave_checked-IsRoom user r k = elim (Bool-cases (r.owner == user)) [
    | inl e ↦ rw e k
    | inr e ↦ elim (Bool-cases (is_open r.state && is_member user r.members)) [
      | inr d ↦ rw (e, d) k
      | inl d ↦
          rw (e, d)
            (record {
              playable = k.playable;
              seats = Allows-le _ (length r.members) _ (length-keep _ r.members) k.seats;
              distinct = Distinct-keep _ r.members k.distinct;
              owned = is_member-keep_other r.owner user r.members e k.owned;
            })
    ]
  ]

  loadout_room-IsRoom :
      (user : ℕ) (text : String) (r : Room F) → IsRoom r → IsRoom (loadout_room user text r).0
  unfolding loadout_room
  loadout_room-IsRoom user text r k =
      elim (Bool-cases (is_open r.state && is_member user r.members)) [
        | inr e ↦ rw e k
        | inl e ↦ rw e (record {
          playable = k.playable;
          seats =
              subst (Allows r.settings.max_players)
                (sym (length-map r.members (put_loadout user text))) k.seats;
          distinct = Distinct-map user text r.members k.distinct;
          owned = is_member-map r.owner user text r.members ∙ k.owned;
        })
      ]

  loadout_checked-IsRoom :
      (user n : ℕ) (text : Option String) (r : Room F)
      → IsRoom r
      → IsRoom (loadout_checked user n text r).0
  unfolding loadout_checked
  loadout_checked-IsRoom user n none r k = k
  loadout_checked-IsRoom user n (some text) r k = elim (Bool-cases (ltb max_loadout_entries n)) [
    | inl e ↦ rw e k
    | inr e ↦ rw e (loadout_room-IsRoom user text r k)
  ]

  ai_checked-IsRoom :
      (user : ℕ) (ps : List String) (r : Room F) → IsRoom r → IsRoom (ai_checked user ps r).0
  unfolding ai_checked settings_room
  ai_checked-IsRoom user ps r k = elim (Bool-cases (r.owner == user)) [
    | inr e ↦ rw e k
    | inl e ↦ elim (Option-cases (validate (record r.settings { ai = ps }))) [
      | inr (x, v) ↦ rw (e, v) k
      | inl v ↦ elim (Bool-cases (is_open r.state)) [
        | inr o ↦ rw (e, v, e, o) k
        | inl o ↦
            rw (e, v, e, o)
              (record {
                playable = (validate-IsPlayable (record r.settings { ai = ps })).0 v;
                seats = k.seats;
                distinct = k.distinct;
                owned = k.owned;
              })
      ]
    ]
  ]

  restated : (s : LobbyState) (r : Room F) → IsRoom r → IsRoom (record r { state = s })
  restated s r k = record {
    playable = k.playable;
    seats = k.seats;
    distinct = k.distinct;
    owned = k.owned;
  }

  start_checked-IsRoom :
      (starts : Room F → Bool) (user : ℕ) (r : Room F)
      → IsRoom r
      → IsRoom (start_checked starts user r).0
  unfolding start_checked flip_room
  start_checked-IsRoom starts user r k = elim (Bool-cases ((r.owner == user) && is_open r.state)) [
    | inr e ↦ rw e k
    | inl e ↦ elim (Bool-cases (length r.members == 0)) [
      | inl z ↦ rw (e, z) (restated _ r k)
      | inr z ↦ elim (Bool-cases (starts (record r { state = lobby_running }))) [
        | inl s ↦ rw (e, z, s) (restated _ r k)
        | inr s ↦ rw (e, z, s) (restated _ r k)
      ]
    ]
  ]

  pub serve_room-IsRoom :
      (starts : Room F → Bool) (q : Request) (r : Room F)
      → IsRoom r
      → IsRoom (serve_room starts q r).0
  unfolding serve_room end_room
  serve_room-IsRoom starts (join user) r k = join_room-IsRoom user r k
  serve_room-IsRoom starts (leave user) r k = leave_checked-IsRoom user r k
  serve_room-IsRoom starts (set_ai user ps) r k = ai_checked-IsRoom user ps r k
  serve_room-IsRoom starts (set_loadout user n text) r k = loadout_checked-IsRoom user n text r k
  serve_room-IsRoom starts (start user) r k = start_checked-IsRoom starts user r k
  serve_room-IsRoom starts match_ended r k = restated _ r k

  -- A match of such a room has at most eight colonies.
  pub colonies-IsRoom :
      (r : Room F) → IsRoom r → colonies r.settings (length r.members) ≤ max_players_limit
  unfolding colonies
  colonies-IsRoom r k =
      Allows-colonies r.settings.max_players (length r.members) (length r.settings.ai) k.seats
        k.playable.colonies
