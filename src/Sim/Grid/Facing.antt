-- ===== src/Sim/Grid/Facing.antt =====
-- `Turn` acts as rotation by eighths, and `headingTo` finds the heading of a single step.
use robocolony.Common.{ℕ, ◌+◌, ◌%◌, ◌*◌, ◌-◌, ◌≤◌, ◌<◌, ◌≡◌, refl, ap₂, arith, ℤ, ◌+ℤ◌}
use robocolony.Common.{rem_ℤ, pos, negsuc, pos_part, neg_part, add-sub, +ℤ_parts, ◌∙◌}
use robocolony.Common.{below_eight}
use robocolony.Sim.Grid.{Coord, add, delta, turn, heading_to, find_heading, headings}

-- The value of a turn, with the parts of the steps: eight times anything is added freely.
turn_parts :
    (h : ℕ) (s : ℤ) (k : ℕ)
    → neg_part s ≤ 8 * k
    → turn h s ≡ (h + pos_part s + 8 * k - neg_part s) % 8
unfolding turn ◌+ℤ◌ rem_ℤ
turn_parts h (pos n) k l = ground arith
turn_parts h (negsuc n) k l = ground arith

-- From any byte and any number of steps a turn ends on one of the eight facings; two turns in a
-- row are one turn by the sum of the steps.
pub turn_action : (h : ℕ) (a b : ℤ) → (turn h a < 8) × (turn (turn h a) b ≡ turn h (a +ℤ b))
turn_action h a b = (
  omega (arith, turn_parts h a (neg_part a)),
  omega (
    arith,
    turn_parts h a (neg_part a),
    turn_parts (turn h a) b (neg_part b),
    turn_parts h (a +ℤ b) (neg_part (a +ℤ b)),
    +ℤ_parts a b,
  ),
)

find_heading-delta : (h : ℕ) → h < 8 → find_heading (delta h) headings ≡ h
unfolding find_heading delta
find_heading-delta =
    below_eight (λ h. find_heading (delta h) headings ≡ h) refl refl refl refl refl refl refl refl

-- From a cell to the next one along a heading, the heading found is that one.
pub heading_to-add : (a : Coord) (h : ℕ) → h < 8 → heading_to a (add a (delta h)) ≡ h
unfolding heading_to add
heading_to-add a h l =
    ap₂ (λ x y. find_heading (record { x = x; y = y }) headings) (add-sub a.x (delta h).x)
      (add-sub a.y (delta h).y)
    ∙ find_heading-delta h l

-- Between any two cells the heading found is one of the eight.
pub heading_to-lt : (a b : Coord) → heading_to a b < 8
unfolding heading_to find_heading
heading_to-lt a b = ground arith
