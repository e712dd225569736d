-- ===== src/Sim/Nav.antt =====
-- Breadth-first navigation: `path`, `unwind` and `reachable` of internal/sim/nav.go.
pub mod Fuel
use robocolony.Common.{
  ℕ, zero, suc, ◌/◌, ◌%◌, Bool, true, false, ◌||◌, not, ltb, ◌==◌, if◌then◌else◌,
}
use robocolony.Common.{
  List, [], ◌∷◌, ◌++◌, foldl, Option, none, some, get_or, set, replicate, length, pos, is_some,
}
use robocolony.Sim.Grid.{Coord, chebyshev, add, delta, headings, eq_coord}
use robocolony.Sim.World.State.{World}
use robocolony.Sim.World.Access.{inside, index, passable}

-- The cell of a row-major offset.
abbrev pub cell_at : ℕ → ℕ → Coord
cell_at width i = record { x = pos (i % width); y = pos (i / width) }

-- The loop of `unwind`, last cell first; the source reverses what it collected, and so the cells
-- are put in front of those found before. An entry that is not set cannot be met: the search sets
-- the entry of each cell whose successor it sets.
unfoldable pub unwind_loop : ℕ → List (Option ℕ) → ℕ → ℕ → ℕ → List Coord → List Coord
unwind_loop zero prev width start i out = out
unwind_loop (suc fuel) prev width start i out = elim (i == start) [
  | true ↦ out
  | false ↦ elim (get_or prev i none) [
    | none ↦ cell_at width i ∷ out
    | some j ↦ unwind_loop fuel prev width start j (cell_at width i ∷ out)
  ]
]

-- No route has more steps than there are cells.
unfoldable pub unwind : List (Option ℕ) → ℕ → ℕ → ℕ → List Coord
unwind prev width start end = unwind_loop (suc (length prev)) prev width start end []

-- The variables of the loop of `path`; an entry of `prev` is `none` where the source has -1, and
-- so is `best`.
pub record Search : Type 0 where
  pub prev : List (Option ℕ)
  pub queue : List Coord
  pub best : Option ℕ
  pub best_dist : ℕ

-- `found` is the return from inside the loop over the headings, with the table at that moment.
pub data Visit : Type 0 where
  found : List (Option ℕ) → Visit
  more : Search → Visit

module _ {G : Type 0} (w : World G) (locomotion : ℕ) where
  -- The body of the loop over the headings of the cell `c`.
  unfoldable pub visit : Coord → Coord → Search → ℕ → Visit
  visit to c s h =
      let n = add c (delta h) in
      let i = index w n in
      let d = chebyshev n to in
      let prev = set s.prev i (some (index w c)) in
      if not (passable w n locomotion) || is_some (get_or s.prev i none)
      then more s
      else if eq_coord n to
      then found prev
      else if ltb d s.best_dist
      then more (record { prev = prev; queue = s.queue ++ n ∷ []; best = some i; best_dist = d })
      else more (record s { prev = prev; queue = s.queue ++ n ∷ [] })

  unfoldable pub visit_all : Coord → Coord → List ℕ → Search → Visit
  visit_all to c [] s = more s
  visit_all to c (h ∷ hs) s = elim (visit to c s h) [
    | found prev ↦ found prev
    | more s' ↦ visit_all to c hs s'
  ]

  -- The loop over the queue. `none` is fuel that ran out; the result is the table and the offset
  -- where the route ends, if there is one.
  unfoldable pub search : ℕ → Coord → Search → Option (List (Option ℕ) × Option ℕ)
  search zero to s = none
  search (suc fuel) to s = elim s.queue [
    | [] ↦ some (s.prev, s.best)
    | c ∷ q ↦ elim (visit_all to c headings (record s { queue = q })) [
      | found prev ↦ some (prev, some (index w to))
      | more s' ↦ search fuel to s'
    ]
  ]

  unfoldable pub search_start : Coord → Coord → Search
  search_start start to = record {
    prev = set (replicate (length w.cells) none) (index w start) (some (index w start));
    queue = start ∷ [];
    best = none;
    best_dist = chebyshev start to;
  }

  unfoldable pub route : Coord → Option (List (Option ℕ) × Option ℕ) → List Coord
  route start none = []
  route start (some (prev, none)) = []
  route start (some (prev, some end)) = unwind prev w.width (index w start) end

  -- Each cell enters the queue once, so one round for each and a last one are enough.
  unfoldable pub path : Coord → Coord → List Coord
  path start to =
      if not (inside w start) || not (inside w to) || eq_coord start to
      then []
      else route start (search (suc (suc (length w.cells))) to (search_start start to))

  -- `reachable`: the flood fill of the generator.
  unfoldable pub flood_visit : Coord → List Bool × List Coord → ℕ → List Bool × List Coord
  flood_visit c (seen, queue) h =
      let n = add c (delta h) in
      if not (passable w n locomotion) || get_or seen (index w n) false
      then (seen, queue)
      else (set seen (index w n) true, queue ++ n ∷ [])

  unfoldable pub flood : ℕ → List Bool × List Coord → Option (List Bool)
  flood zero (seen, queue) = none
  flood (suc fuel) (seen, queue) = elim queue [
    | [] ↦ some seen
    | c ∷ q ↦ flood fuel (foldl (flood_visit c) (seen, q) headings)
  ]

  abbrev unseen : List Bool
  unseen = replicate (length w.cells) false

  unfoldable pub reachable : Coord → Option (List Bool)
  reachable start =
      if not (passable w start locomotion)
      then some unseen
      else flood (suc (suc (length w.cells))) (set unseen (index w start) true, start ∷ [])
