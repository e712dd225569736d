-- ===== src/Lobby/Service/Seats.antt =====
-- What every request keeps of a room: its settings are playable, its seats are of different users,
-- the owner has one, and there are no more of them than the settings allow.
use robocolony.Common.{
  ℕ, ◌==◌, ◌≡◌, ◌≤◌, refl, ap, ap₂, ◌∙◌, arith, Bool, true, false, not, ◌||◌, inl, inr, Bool-cases,
  String, List, [], ◌∷◌, ◌++◌, length, keep, map, or_false_parts,
}
use robocolony.Lobby.Service.{Seat, new_seat, is_member, put_loadout}

-- No user has two seats.
unfoldable pub Distinct : List Seat → Type 0
Distinct [] = Unit
Distinct (s ∷ ss) = (is_member s.user ss ≡ false) × Distinct ss

or_comm_false : (a b : Bool) → a ≡ false → b ≡ false → (a || b) ≡ false
or_comm_false a b p q = rw (p, q) refl

eq_sym_false : (i j : ℕ) → (i == j) ≡ false → (j == i) ≡ false
eq_sym_false i j h = ground arith

pub is_member-append_new :
    (user v : ℕ) (ss : List Seat)
    → (v == user) ≡ false
    → is_member user (ss ++ new_seat v ∷ []) ≡ is_member user ss
unfolding is_member
is_member-append_new user v [] h = rw h refl
is_member-append_new user v (s ∷ ss) h =
    ap (λ b. (s.user == user) || b) (is_member-append_new user v ss h)

pub is_member-append_true :
    (user v : ℕ) (ss : List Seat)
    → is_member user ss ≡ true
    → is_member user (ss ++ new_seat v ∷ []) ≡ true
unfolding is_member
is_member-append_true user v [] h = absurd cc
is_member-append_true user v (s ∷ ss) h = elim (Bool-cases (s.user == user)) [
  | inl e ↦ rw e refl
  | inr e ↦
      rw e (is_member-append_true user v ss (let q : is_member user ss ≡ true = rw e at h in q))
]

pub Distinct-append :
    (v : ℕ) (ss : List Seat)
    → is_member v ss ≡ false
    → Distinct ss
    → Distinct (ss ++ new_seat v ∷ [])
unfolding Distinct is_member
Distinct-append v [] h d = (refl, tt)
Distinct-append v (s ∷ ss) h d =
    let parts = or_false_parts (s.user == v) (is_member v ss) h in
    (
      is_member-append_new s.user v ss (eq_sym_false s.user v parts.0) ∙ d.0,
      Distinct-append v ss parts.1 d.1,
    )

other : ℕ → Seat → Bool
other user s = not (s.user == user)

is_member-keep_absent :
    (v : ℕ) (p : Seat → Bool) (ss : List Seat)
    → is_member v ss ≡ false
    → is_member v (keep p ss) ≡ false
unfolding is_member
is_member-keep_absent v p [] h = refl
is_member-keep_absent v p (s ∷ ss) h =
    let parts = or_false_parts (s.user == v) (is_member v ss) h in
    let rest = is_member-keep_absent v p ss parts.1 in
    elim (Bool-cases (p s)) [ inl e ↦ rw (e, parts.0) rest | inr e ↦ rw e rest ]

pub Distinct-keep : (p : Seat → Bool) (ss : List Seat) → Distinct ss → Distinct (keep p ss)
unfolding Distinct
Distinct-keep p [] d = tt
Distinct-keep p (s ∷ ss) d =
    let rest = Distinct-keep p ss d.1 in
    elim (Bool-cases (p s)) [
      | inl e ↦ rw e (is_member-keep_absent s.user p ss d.0, rest)
      | inr e ↦ rw e rest
    ]

-- Another user keeps the seat when one leaves.
pub is_member-keep_other :
    (v user : ℕ) (ss : List Seat)
    → (v == user) ≡ false
    → is_member v ss ≡ true
    → is_member v (keep (λ (s : Seat). not (s.user == user)) ss) ≡ true
unfolding is_member
is_member-keep_other v user [] n h = absurd cc
is_member-keep_other v user (s ∷ ss) n h = elim (Bool-cases (s.user == user)) [
  | inl e ↦
      let differs : (s.user == v) ≡ false = ground arith in
      rw e (is_member-keep_other v user ss n (let q : is_member v ss ≡ true = rw differs at h in q))
  | inr e ↦ elim (Bool-cases (s.user == v)) [
    | inl d ↦ rw (e, d) refl
    | inr d ↦
        rw (e, d)
          (is_member-keep_other v user ss n (let q : is_member v ss ≡ true = rw d at h in q))
  ]
]

pub length-keep : (p : Seat → Bool) (ss : List Seat) → length (keep p ss) ≤ length ss
length-keep p [] = omega arith
length-keep p (s ∷ ss) =
    let rest = length-keep p ss in
    elim (Bool-cases (p s)) [ inl e ↦ rw e (omega arith) | inr e ↦ rw e (omega arith) ]

put_loadout-user : (user : ℕ) (text : String) (s : Seat) → (put_loadout user text s).user ≡ s.user
unfolding put_loadout
put_loadout-user user text s = elim (Bool-cases (s.user == user)) [
  | inl e ↦ rw e refl
  | inr e ↦ rw e refl
]

pub is_member-map :
    (v user : ℕ) (text : String) (ss : List Seat)
    → is_member v (map (put_loadout user text) ss) ≡ is_member v ss
unfolding is_member
is_member-map v user text [] = refl
is_member-map v user text (s ∷ ss) =
    ap₂ (λ a b. (a == v) || b) (put_loadout-user user text s) (is_member-map v user text ss)

pub Distinct-map :
    (user : ℕ) (text : String) (ss : List Seat)
    → Distinct ss
    → Distinct (map (put_loadout user text) ss)
unfolding Distinct
Distinct-map user text [] d = tt
Distinct-map user text (s ∷ ss) d = (
  is_member-map _ user text ss ∙ ap (λ x. is_member x ss) (put_loadout-user user text s) ∙ d.0,
  Distinct-map user text ss d.1,
)
