-- ===== src/Lobby/Match/Feed.antt =====
-- The event feed of a match is the end of all that its ticks emitted.
use robocolony.Common.{
  ℕ, zero, suc, ◌+◌, ◌-◌, ◌≤◌, ◌≡◌, refl, sym, ap, subst, ◌∙◌, arith, ltb, inl, inr, Bool-cases,
  if◌then◌else◌, if_true, if_false, ltb_false→le, List, [], ◌∷◌, ◌++◌, length, length-append,
  length-drop, drop,
}
use mathlib.Core.List.{append-nil, append_assoc}
use robocolony.Sim.World.State.{Rng, Event}
use robocolony.Lobby.Settings.{Floats}
use robocolony.Lobby.Match.{Match, event_cap, collect_events, advance, step_match}
use robocolony.Lobby.Match.Clock.{drive}

-- The last `n` elements of a list, or all of a list that has fewer.
unfoldable pub last_of {ℓ} : {A : Type ℓ} → ℕ → List A → List A
last_of n xs = drop (length xs - n) xs

module _ {ℓ} {A : Type ℓ} where
  drop-append_short : (n : ℕ) (xs ys : List A) → n ≤ length xs → drop n xs ++ ys ≡ drop n (xs ++ ys)
  drop-append_short zero xs ys h = refl
  drop-append_short (suc n) [] ys h = absurd (omega arith)
  drop-append_short (suc n) (x ∷ xs) ys h = drop-append_short n xs ys (omega arith)

  drop-empty : (n : ℕ) → drop {A = A} n [] ≡ []
  drop-empty zero = refl
  drop-empty (suc n) = refl

  drop-drop : (m n : ℕ) (xs : List A) → drop m (drop n xs) ≡ drop (n + m) xs
  drop-drop m zero xs = ap (λ k. drop k xs) (omega arith)
  drop-drop m (suc n) [] = drop-empty m ∙ sym (drop-empty (suc n + m))
  drop-drop m (suc n) (x ∷ xs) =
      drop-drop m n xs
      ∙ ap (λ k. drop k (x ∷ xs)) (let q : suc (n + m) ≡ suc n + m = omega arith in q)

  last_of_short : (n : ℕ) (xs : List A) → length xs ≤ n → last_of n xs ≡ xs
  unfolding last_of
  last_of_short n xs h =
      let none_dropped : length xs - n ≡ 0 = omega arith in ap (λ k. drop k xs) none_dropped

  length-last_of : (n : ℕ) (xs : List A) → length (last_of n xs) ≤ n
  unfolding last_of
  length-last_of n xs = let q = length-drop (length xs - n) xs in omega arith

  last_of-last_of : (n : ℕ) (xs ys : List A) → last_of n (last_of n xs ++ ys) ≡ last_of n (xs ++ ys)
  unfolding last_of
  last_of-last_of n xs ys =
      let d = length xs - n in
      let joined = drop-append_short d xs ys (omega arith) in
      let all = length-append xs ys in
      let rest = length-drop d (xs ++ ys) in
      let count : d + (length (drop d (xs ++ ys)) - n) ≡ length (xs ++ ys) - n = omega arith in
      ap (λ zs. drop (length zs - n) zs) joined
      ∙ drop-drop (length (drop d (xs ++ ys)) - n) d (xs ++ ys)
      ∙ ap (λ k. drop k (xs ++ ys)) count

collect_events_last :
    (old new : List Event) → collect_events old new ≡ last_of event_cap (old ++ new)
unfolding collect_events last_of
collect_events_last old new = elim (Bool-cases (ltb event_cap (length (old ++ new)))) [
  | inl e ↦ if_true _ _ e
  | inr e ↦
      let le = ltb_false→le event_cap (length (old ++ new)) e in
      let none_dropped : 0 ≡ length (old ++ new) - event_cap = omega arith in
      if_false _ _ e ∙ ap (λ k. drop k (old ++ new)) none_dropped
]

module _ {F G : Type 0} ⦃fl : Floats F⦄ ⦃g : Rng G⦄ where
  -- What the next `n` ticks of the driver emit, in their order.
  unfoldable pub emitted : ℕ → Match F G → List Event
  emitted zero m = []
  emitted (suc n) m =
      (if m.finished then [] else (advance m).world.events) ++ emitted n (step_match m).0

  step_match-events :
      (m : Match F G)
      → length m.events ≤ event_cap
      → (step_match m).0.events
        ≡ last_of event_cap (m.events ++ (if m.finished then [] else (advance m).world.events))
  unfolding step_match advance
  step_match-events m h = elim (Bool-cases m.finished) [
    | inl e ↦
        rw e
          (sym (ap (last_of event_cap) (append-nil m.events) ∙ last_of_short event_cap m.events h))
    | inr e ↦ rw e (collect_events_last m.events _)
  ]

  -- After `n` ticks of the driver, the feed holds the last 400 of the events that it held before and
  -- those that the ticks emitted, in their order; a match that is over emits none.
  pub drive_feed :
      (n : ℕ) (m : Match F G)
      → length m.events ≤ event_cap
      → (drive n m).events ≡ last_of event_cap (m.events ++ emitted n m)
  unfolding drive emitted
  drive_feed zero m h =
      sym (ap (last_of event_cap) (append-nil m.events) ∙ last_of_short event_cap m.events h)
  drive_feed (suc n) m h =
      let new = if m.finished then [] else (advance m).world.events in
      let later = emitted n (step_match m).0 in
      let next = step_match-events m h in
      let short =
        subst (λ (xs : List Event). length xs ≤ event_cap) (sym next)
          (length-last_of event_cap (m.events ++ new)) in
      drive_feed n (step_match m).0 short
      ∙ ap (λ xs. last_of event_cap (xs ++ later)) next
      ∙ last_of-last_of event_cap (m.events ++ new) later
      ∙ ap (last_of event_cap) (append_assoc m.events new later)
