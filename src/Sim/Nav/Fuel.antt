-- ===== src/Sim/Nav/Fuel.antt =====
-- The search of `path` ends: the rounds given to it are enough.
use robocolony.Common.{
  ℕ, zero, suc, ◌+◌, ◌*◌, ◌≡◌, ◌≤◌, ◌<◌, ◌⊎◌, refl, ap, ◌∙◌, true, false, not, ◌||◌, ltb, arith,
  inl, inr, if◌then◌else◌,
}
use robocolony.Common.{
  List, [], ◌∷◌, Option, none, some, is_some, get_or, set, replicate, length, length-set,
  length-replicate, length-append, Bool-cases,
}
use robocolony.Sim.Grid.{Coord, add, delta, headings, eq_coord, chebyshev}
use robocolony.Sim.World.State.{World}
use robocolony.Sim.World.Access.{inside, index, passable}
use robocolony.Sim.World.Access.Laws.{index-lt}
use robocolony.Sim.Nav.{Search, Visit, found, more, visit, visit_all, search, search_start}

-- The entries that are not set yet.
abbrev unset : List (Option ℕ) → ℕ
unset [] = 0
unset (o ∷ os) = (if is_some o then 0 else 1) + unset os

unset-set :
    (prev : List (Option ℕ)) (i j : ℕ)
    → i < length prev
    → is_some (get_or prev i none) ≡ false
    → unset (set prev i (some j)) + 1 ≡ unset prev
unset-set [] i j l h = absurd (omega arith)
unset-set (o ∷ os) zero j l h = ground arith
unset-set (o ∷ os) (suc i) j l h = omega (arith, unset-set os i j (omega arith) h)

-- Each cell enters the queue once, so this bounds the rounds that are left.
abbrev load : Search → ℕ
load s = length s.queue + unset s.prev

-- A visit does not raise the load.
abbrev Kept : Search → Visit → Type 0
Kept s (found prev) = Unit
Kept s (more s') = (load s' ≤ load s) × (length s'.prev ≡ length s.prev)

Kept-trans :
    (s s' : Search) (v : Visit)
    → load s' ≤ load s
    → length s'.prev ≡ length s.prev
    → Kept s' v
    → Kept s v
Kept-trans s s' (found prev) l e k = tt
Kept-trans s s' (more t) l e k = (omega (arith, k.0), k.1 ∙ e)

unset-le : (prev : List (Option ℕ)) → unset prev ≤ length prev
unset-le [] = omega arith
unset-le (none ∷ os) = omega (arith, unset-le os)
unset-le (some j ∷ os) = omega (arith, unset-le os)

Visit-cases :
    (v : Visit) → ((prev : List (Option ℕ)) × (v ≡ found prev)) ⊎ ((s : Search) × (v ≡ more s))
Visit-cases (found prev) = inl (prev, refl)
Visit-cases (more s) = inr (s, refl)

List-cases {ℓ} :
    {A : Type ℓ} (xs : List A) → (xs ≡ []) ⊎ ((x : A) × (rest : List A) × (xs ≡ x ∷ rest))
List-cases [] = inl refl
List-cases (x ∷ xs) = inr (x, xs, refl)

module _ {G : Type 0} (w : World G) (locomotion : ℕ)
    (sized : length w.cells ≡ w.height * w.width) where
  passable-inside : (c : Coord) → passable w c locomotion ≡ true → inside w c ≡ true
  unfolding passable
  passable-inside c h = ground arith

  visit-Kept :
      (to c : Coord) (s : Search) (h : ℕ)
      → length s.prev ≡ length w.cells
      → Kept s (visit w locomotion to c s h)
  unfolding visit
  visit-Kept to c s h e =
      let n = add c (delta h) in
      let i = index w n in
      elim (Bool-cases (not (passable w n locomotion) || is_some (get_or s.prev i none))) [
        | inl skip ↦ rw (skip, visit) (omega arith, refl)
        | inr go ↦
            let open_cell : inside w n ≡ true = passable-inside n (ground arith) in
            let below : i < length s.prev = omega (arith, index-lt w n open_cell) in
            let marked = unset-set s.prev i (index w c) below (ground arith) in
            let same = length-set s.prev i (some (index w c)) in
            let queued = length-append s.queue (n ∷ []) in
            elim (Bool-cases (eq_coord n to)) [
              | inl here ↦ rw (go, here, visit) tt
              | inr on ↦ elim (Bool-cases (ltb (chebyshev n to) s.best_dist)) [
                | inl b ↦ rw (go, on, b, visit) (omega (arith, marked, queued), same)
                | inr b ↦ rw (go, on, b, visit) (omega (arith, marked, queued), same)
              ]
            ]
      ]

  visit_all-Kept :
      (to c : Coord) (hs : List ℕ) (s : Search)
      → length s.prev ≡ length w.cells
      → Kept s (visit_all w locomotion to c hs s)
  unfolding visit_all
  visit_all-Kept to c [] s e = (omega arith, refl)
  visit_all-Kept to c (h ∷ hs) s e =
      let one = visit-Kept to c s h e in
      elim (Visit-cases (visit w locomotion to c s h)) [
        | inl (prev, q) ↦ rw (q, visit_all) tt
        | inr (s', q) ↦
            let kept : Kept s (more s') = rw q at one in
            rw (q, visit_all)
              (Kept-trans s s' _ kept.0 kept.1 (visit_all-Kept to c hs s' (kept.1 ∙ e)))
      ]

  search_total :
      (fuel : ℕ) (to : Coord) (s : Search)
      → length s.prev ≡ length w.cells
      → load s < fuel
      → is_some (search w locomotion fuel to s) ≡ true
  unfolding search
  search_total zero to s e l = absurd (omega arith)
  search_total (suc fuel) to s e l = elim (List-cases s.queue) [
    | inl q ↦ rw (q, search) refl
    | inr (c, rest, q) ↦
        let s1 : Search = record {
          prev = s.prev;
          queue = rest;
          best = s.best;
          best_dist = s.best_dist;
        } in
        let shorter : length s.queue ≡ suc (length rest) = ap (λ xs. length xs) q in
        let all = visit_all-Kept to c headings s1 e in
        elim (Visit-cases (visit_all w locomotion to c headings s1)) [
          | inl (prev, v) ↦ rw (q, v, search) refl
          | inr (s', v) ↦
              let kept : Kept s1 (more s') = rw v at all in
              rw (q, v, search)
                (search_total fuel to s' (kept.1 ∙ e) (omega (arith, kept.0, shorter)))
        ]
  ]

  -- The search of `path` ends within the rounds that it is given, from any cell to any other, on
  -- a map that has its width times its height cells.
  pub path-search_total :
      (start to : Coord)
      → is_some
          (search w locomotion (suc (suc (length w.cells))) to (search_start w locomotion start to))
        ≡ true
  unfolding search_start
  path-search_total start to =
      let blank = replicate (length w.cells) none in
      let i = index w start in
      let sizes = length-set blank i (some i) ∙ length-replicate (length w.cells) none in
      let few = unset-le (set blank i (some i)) in
      search_total (suc (suc (length w.cells))) to (search_start w locomotion start to) sizes
        (omega (arith, few, sizes))
