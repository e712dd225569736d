-- ===== src/Lobby/Service/Frozen.antt =====
-- After the start of its match a room's seats and settings do not move, and a refusal never moves
-- anything.
use robocolony.Common.{
  ℕ, ◌==◌, ltb, ◌≡◌, refl, sym, subst, ◌∙◌, Bool, false, inl, inr, Bool-cases, Option-cases, String,
  List, [], ◌∷◌, Option, none, some,
}
use robocolony.Lobby.Settings.{Floats, validate}
use robocolony.Lobby.Service.{
  Room, is_open, is_member, join_room, leave_room, leave_checked, loadout_room, loadout_checked,
  settings_room, flip_room, start_checked, end_room, ai_checked, Request, join, leave, set_ai,
  set_loadout, start, match_ended, serve_room, max_loadout_entries,
}

module _ {F : Type 0} ⦃fl : Floats F⦄ (starts : Room F → Bool) where
  -- The room `r'` has the roster of the room `r`, and its match is under way or over.
  pub record IsFrozen (r r' : Room F) : Type 0 where
    pub owner : r'.owner ≡ r.owner
    pub settings : r'.settings ≡ r.settings
    pub members : r'.members ≡ r.members
    pub closed : is_open r'.state ≡ false

  IsFrozen-self : (r : Room F) → is_open r.state ≡ false → IsFrozen r r
  IsFrozen-self r h = record { owner = refl; settings = refl; members = refl; closed = h }

  join_room-IsFrozen :
      (user : ℕ) (r : Room F)
      → is_open r.state ≡ false
      → (join_room user r.settings.max_players r).0 ≡ r
  unfolding join_room
  join_room-IsFrozen user r h = elim (Bool-cases (is_member user r.members)) [
    | inl e ↦ rw (h, e) refl
    | inr e ↦ rw (h, e) refl
  ]

  leave_checked-IsFrozen :
      (user : ℕ) (r : Room F) → is_open r.state ≡ false → (leave_checked user r).0 ≡ r
  unfolding leave_checked leave_room
  leave_checked-IsFrozen user r h = elim (Bool-cases (r.owner == user)) [
    | inl e ↦ rw e refl
    | inr e ↦ rw (e, h) refl
  ]

  loadout_checked-IsFrozen :
      (user n : ℕ) (text : Option String) (r : Room F)
      → is_open r.state ≡ false
      → (loadout_checked user n text r).0 ≡ r
  unfolding loadout_checked loadout_room
  loadout_checked-IsFrozen user n none r h = refl
  loadout_checked-IsFrozen user n (some text) r h = elim (Bool-cases (ltb max_loadout_entries n)) [
    | inl e ↦ rw e refl
    | inr e ↦ rw (e, h) refl
  ]

  ai_checked-IsFrozen :
      (user : ℕ) (ps : List String) (r : Room F)
      → is_open r.state ≡ false
      → (ai_checked user ps r).0 ≡ r
  unfolding ai_checked settings_room
  ai_checked-IsFrozen user ps r h = elim (Bool-cases (r.owner == user)) [
    | inr e ↦ rw e refl
    | inl e ↦ elim (Option-cases (validate (record r.settings { ai = ps }))) [
      | inl v ↦ rw (e, v, e, h) refl
      | inr (x, v) ↦ rw (e, v) refl
    ]
  ]

  start_checked-IsFrozen :
      (user : ℕ) (r : Room F) → is_open r.state ≡ false → (start_checked starts user r).0 ≡ r
  unfolding start_checked flip_room
  start_checked-IsFrozen user r h = elim (Bool-cases (r.owner == user)) [
    | inl e ↦ rw (e, h) refl
    | inr e ↦ rw (e) refl
  ]

  serve_room-IsFrozen :
      (q : Request) (r : Room F) → is_open r.state ≡ false → IsFrozen r (serve_room starts q r).0
  unfolding serve_room end_room
  serve_room-IsFrozen (join user) r h =
      subst (IsFrozen r) (sym (join_room-IsFrozen user r h)) (IsFrozen-self r h)
  serve_room-IsFrozen (leave user) r h =
      subst (IsFrozen r) (sym (leave_checked-IsFrozen user r h)) (IsFrozen-self r h)
  serve_room-IsFrozen (set_ai user ps) r h =
      subst (IsFrozen r) (sym (ai_checked-IsFrozen user ps r h)) (IsFrozen-self r h)
  serve_room-IsFrozen (set_loadout user n text) r h =
      subst (IsFrozen r) (sym (loadout_checked-IsFrozen user n text r h)) (IsFrozen-self r h)
  serve_room-IsFrozen (start user) r h =
      subst (IsFrozen r) (sym (start_checked-IsFrozen user r h)) (IsFrozen-self r h)
  serve_room-IsFrozen match_ended r h = record {
    owner = refl;
    settings = refl;
    members = refl;
    closed = refl;
  }

  -- A room under a sequence of requests, in their order.
  unfoldable pub serve_all : List Request → Room F → Room F
  serve_all [] r = r
  serve_all (q ∷ qs) r = serve_all qs (serve_room starts q r).0

  -- Once a room is not open, no sequence of requests moves its owner, its settings, its members and
  -- their loadouts, or opens it again.
  pub serve_all-IsFrozen :
      (qs : List Request) (r : Room F) → is_open r.state ≡ false → IsFrozen r (serve_all qs r)
  unfolding serve_all
  serve_all-IsFrozen [] r h = IsFrozen-self r h
  serve_all-IsFrozen (q ∷ qs) r h =
      let here = serve_room-IsFrozen q r h in
      let later = serve_all-IsFrozen qs (serve_room starts q r).0 here.closed in
      record {
        owner = later.owner ∙ here.owner;
        settings = later.settings ∙ here.settings;
        members = later.members ∙ here.members;
        closed = later.closed;
      }
