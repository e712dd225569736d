-- ===== src/Lobby/Service/Tables.antt =====
-- The invariant of the rooms, over all the calls of the service.
use robocolony.Common.{
  ◌≤ℤ◌, ℕ, ◌==◌, ◌||◌, ◌≡◌, ◌≤◌, refl, subst, arith, ltb, Bool, true, false, inl, inr, Bool-cases,
  Option-cases, String, List, [], ◌∷◌, All, All-append, none, some, length, ℤ, pos, negsuc,
}
use Prim.Native.String.{len}
use robocolony.Common.Assoc.{lookup, assign}
use robocolony.Prog.Catalogue.{eq_string}
use robocolony.Lobby.Settings.{Floats, Settings, validate, colonies, max_players_limit}
use robocolony.Lobby.Settings.Limits.{IsPlayable, validate-IsPlayable}
use robocolony.Lobby.Service.{
  Room, Lobbies, Request, is_member, lobby_open, new_seat, serve, create,
}
use robocolony.Lobby.Service.Seats.{Distinct}
use robocolony.Lobby.Service.Rooms.{IsRoom, Allows, serve_room-IsRoom, colonies-IsRoom}

-- A call of the service.
pub data Call (F : Type 0) : Type 0 where
  creates : ℕ → String → Settings F → ℤ → Call F
  serves : ℕ → Request → Call F

module _ {ℓ κ} {K : Type 0} {V : Type ℓ} (P : V → Type κ) (same : K → K → Bool) where
  -- A value that a map with good values has is good.
  All-lookup :
      (m : List (K × V)) (k : K) (v : V)
      → lookup same m k ≡ some v
      → All (λ (e : K × V). P e.1) m
      → P v
  unfolding lookup
  All-lookup [] k v h a = absurd cc
  All-lookup ((j, u) ∷ m) k v h a = elim (Bool-cases (same j k)) [
    | inl e ↦ let q : some u ≡ some v = rw e at h in let p : u ≡ v = cc in subst P p a.0
    | inr e ↦ All-lookup m k v (let q : lookup same m k ≡ some v = rw e at h in q) a.1
  ]

  All-assign :
      (m : List (K × V)) (k : K) (v : V)
      → P v
      → All (λ (e : K × V). P e.1) m
      → All (λ (e : K × V). P e.1) (assign same m k v)
  unfolding assign
  All-assign [] k v p a = (p, tt)
  All-assign ((j, u) ∷ m) k v p a = elim (Bool-cases (same j k)) [
    | inl e ↦ rw e (p, a.1)
    | inr e ↦ rw e (a.0, All-assign m k v p a.1)
  ]

Allows-one : (m : ℤ) → pos 1 ≤ℤ m → Allows m 1
unfolding Allows
Allows-one (pos k) h = omega arith
Allows-one (negsuc k) h = absurd (omega arith)

self : (i : ℕ) → ((i == i) || false) ≡ true
self i = ground arith

module _ {F : Type 0} ⦃fl : Floats F⦄ where
  -- Every room is as it has to be.
  pub record IsKept (l : Lobbies F) : Type 0 where
    pub kept : All (λ (e : ℕ × Room F). IsRoom e.1) l.rooms

  seeded-IsPlayable :
      (s : Settings F) (seed : ℤ) → IsPlayable s → IsPlayable (record s { seed = seed })
  seeded-IsPlayable s seed p = record {
    duration = p.duration;
    richness = p.richness;
    spawn_rate = p.spawn_rate;
    spawn_limit = p.spawn_limit;
    budget = p.budget;
    density = p.density;
    arena = p.arena;
    players = p.players;
    players_limit = p.players_limit;
    colonies = p.colonies;
    profiles = p.profiles;
  }

  new-IsRoom :
      (user : ℕ) (name : String) (s : Settings F) (seed : ℤ)
      → validate s ≡ none
      → IsRoom (record {
        owner = user;
        name = name;
        settings = record s { seed = seed };
        state = lobby_open;
        members = new_seat user ∷ [];
      })
  unfolding Distinct is_member
  new-IsRoom user name s seed v =
      let p = (validate-IsPlayable s).0 v in
      record {
        playable = seeded-IsPlayable s seed p;
        seats = Allows-one s.max_players p.players;
        distinct = (refl, tt);
        owned = self user;
      }

  create-IsKept :
      (user : ℕ) (name : String) (s : Settings F) (seed : ℤ) (l : Lobbies F)
      → IsKept l
      → IsKept (create user name s seed l).0
  unfolding create
  create-IsKept user name s seed l k = elim (Bool-cases (eq_string name "")) [
    | inl e ↦ rw e k
    | inr e ↦ elim (Bool-cases (ltb 64 (len name))) [
      | inl d ↦ rw (e, d) k
      | inr d ↦ elim (Option-cases (validate s)) [
        | inr (x, v) ↦ rw (e, d, v) k
        | inl v ↦
            rw (e, d, v)
              (record { kept = All-append _ l.rooms _ k.kept (new-IsRoom user name s seed v, tt) })
      ]
    ]
  ]

  serve-IsKept :
      (starts : Room F → Bool) (id : ℕ) (q : Request) (l : Lobbies F)
      → IsKept l
      → IsKept (serve starts id q l).0
  unfolding serve
  serve-IsKept starts id q l k = elim (Option-cases (lookup (λ i j. i == j) l.rooms id)) [
    | inl e ↦ rw e k
    | inr (r, e) ↦ rw e (record {
      kept =
          All-assign IsRoom (λ i j. i == j) l.rooms id _
            (serve_room-IsRoom starts q r (All-lookup IsRoom (λ i j. i == j) l.rooms id r e k.kept))
            k.kept;
    })
  ]

  unfoldable pub handle : (Room F → Bool) → Call F → Lobbies F → Lobbies F
  handle starts (creates user name s seed) l = (create user name s seed l).0
  handle starts (serves id q) l = (serve starts id q l).0

  -- The tables after a sequence of calls, in their order.
  unfoldable pub handle_all : (Room F → Bool) → List (Call F) → Lobbies F → Lobbies F
  handle_all starts [] l = l
  handle_all starts (c ∷ cs) l = handle_all starts cs (handle starts c l)

  abbrev pub no_lobbies : Lobbies F
  no_lobbies = record { rooms = []; next = 1 }

  handle_all-IsKept :
      (starts : Room F → Bool) (cs : List (Call F)) (l : Lobbies F)
      → IsKept l
      → IsKept (handle_all starts cs l)
  unfolding handle handle_all
  handle_all-IsKept starts [] l k = k
  handle_all-IsKept starts (creates user name s seed ∷ cs) l k =
      handle_all-IsKept starts cs _ (create-IsKept user name s seed l k)
  handle_all-IsKept starts (serves id q ∷ cs) l k =
      handle_all-IsKept starts cs _ (serve-IsKept starts id q l k)

  -- Whatever calls are made of a service that starts with no lobbies, every lobby that it then has is
  -- as it has to be: playable settings, the seats of different users, one of them the owner's, no
  -- more seats than the settings allow, and at most eight colonies in its match.
  pub handle_all-IsRoom :
      (starts : Room F → Bool) (cs : List (Call F)) (id : ℕ) (r : Room F)
      → lookup (λ i j. i == j) (handle_all starts cs no_lobbies).rooms id ≡ some r
      → IsRoom r × (colonies r.settings (length r.members) ≤ max_players_limit)
  handle_all-IsRoom starts cs id r h =
      let kept = handle_all-IsKept starts cs no_lobbies (record { kept = tt }) in
      let k = All-lookup IsRoom (λ i j. i == j) _ id r h kept.kept in (k, colonies-IsRoom r k)
