-- ===== src/Sim/Grid.antt =====
-- Cells and facings: `Coord`, `Chebyshev`, `Heading`, `Delta` and `Turn` of internal/sim/world.go,
-- `add` of internal/sim/tick.go and `headingTo` of internal/sim/nav.go.
pub mod Distance
pub mod Facing
pub mod Wrapped
use robocolony.Common.{ℕ, zero, suc, ◌+◌, max, Bool, ◌&&◌, List, [], ◌∷◌, get_or, leb}
use robocolony.Common.{if◌then◌else◌, ℤ, pos, negsuc, ◌+ℤ◌, ◌-ℤ◌, rem_ℤ, pos_part, abs, eqb_ℤ}

pub record Coord : Type 0 where
  pub x : ℤ
  pub y : ℤ

abbrev pub eq_coord : Coord → Coord → Bool
eq_coord a b = eqb_ℤ a.x b.x && eqb_ℤ a.y b.y

abbrev pub origin : Coord
origin = record { x = pos 0; y = pos 0 }

-- The result of `abs` is not negative, so distances are natural numbers.
unfoldable pub chebyshev : Coord → Coord → ℕ
chebyshev c o = max (abs (c.x -ℤ o.x)) (abs (c.y -ℤ o.y))

unfoldable pub add : Coord → Coord → Coord
add a b = record { x = a.x +ℤ b.x; y = a.y +ℤ b.y }

-- A `Heading` is a byte: the eight facings clockwise from north, 0 to 7, and meaningless values.
abbrev pub heading_count : ℕ
heading_count = 8

abbrev pub north : ℕ
north = 0

abbrev pub heading_delta : List Coord
heading_delta =
    record { x = pos 0; y = negsuc 0 }
    ∷ record { x = pos 1; y = negsuc 0 }
    ∷ record { x = pos 1; y = pos 0 }
    ∷ record { x = pos 1; y = pos 1 }
    ∷ record { x = pos 0; y = pos 1 }
    ∷ record { x = negsuc 0; y = pos 1 }
    ∷ record { x = negsuc 0; y = pos 0 }
    ∷ record { x = negsuc 0; y = negsuc 0 }
    ∷ []

-- The list has `heading_count` entries, so the default is not read.
unfoldable pub delta : ℕ → Coord
delta h = if leb heading_count h then origin else get_or heading_delta h origin

-- `Heading(((int(h)+steps)%n + n) % n)`; the number converted back to a byte is not negative.
unfoldable pub turn : ℕ → ℤ → ℕ
turn h steps = let n = heading_count in pos_part (rem_ℤ (rem_ℤ (pos h +ℤ steps) n +ℤ pos n) n)

-- The headings from `h` on, `k` of them, as the loop `for h := North; h < headingCount; h++`.
abbrev pub headings_from : ℕ → ℕ → List ℕ
headings_from zero h = []
headings_from (suc k) h = h ∷ headings_from k (h + 1)

abbrev pub headings : List ℕ
headings = headings_from heading_count north

-- The search of `headingTo` through the headings that are left.
unfoldable pub find_heading : Coord → List ℕ → ℕ
find_heading d [] = north
find_heading d (h ∷ hs) = if eq_coord (delta h) d then h else find_heading d hs

unfoldable pub heading_to : Coord → Coord → ℕ
heading_to a b = find_heading (record { x = b.x -ℤ a.x; y = b.y -ℤ a.y }) headings
