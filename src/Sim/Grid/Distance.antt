-- ===== src/Sim/Grid/Distance.antt =====
-- `Chebyshev` is a metric, and a heading's offset is one step of it.
use robocolony.Common.{
  pos, pos_part, ◌+ℤ◌, ◌≤ℤ◌, ◌^◌, ap, sym, ℕ, ◌+◌, ◌≤◌, ◌<◌, ◌≡◌, refl, ap₂, arith, ◌↔◌, max, ◌∙◌,
}
use robocolony.Common.{abs, subst, below_eight}
use robocolony.Common.{abs_sub_triangle, abs_sub_comm, abs_sub_zero, abs_sub_self, abs_sub-add}
use robocolony.Sim.Grid.Wrapped.{
  wrap_i64, chebyshev_i64, wrap_i64-small, chebyshev_i64-small, abs_sub_le,
}
use robocolony.Sim.Grid.{Coord, chebyshev, add, delta}

eq_coord_of : (a b : Coord) → a.x ≡ b.x → a.y ≡ b.y → a ≡ b
eq_coord_of a b p q = λ i. record { x = p i; y = q i }

pos_sum : (m n : ℕ) → pos m +ℤ pos n ≡ pos (m + n)
unfolding ◌+ℤ◌
pos_sum m n = ground arith

pub chebyshev_self : (a : Coord) → chebyshev a a ≡ 0
unfolding chebyshev
chebyshev_self a = omega (arith, abs_sub_self a.x, abs_sub_self a.y)

pub chebyshev_comm : (a b : Coord) → chebyshev a b ≡ chebyshev b a
unfolding chebyshev
chebyshev_comm a b = ap₂ max (abs_sub_comm a.x b.x) (abs_sub_comm a.y b.y)

pub chebyshev_triangle : (a b c : Coord) → chebyshev a c ≤ chebyshev a b + chebyshev b c
unfolding chebyshev
chebyshev_triangle a b c = omega (arith, abs_sub_triangle a.x b.x c.x, abs_sub_triangle a.y b.y c.y)

pub chebyshev_zero : (a b : Coord) → chebyshev a b ≡ 0 → a ≡ b
unfolding chebyshev
chebyshev_zero a b h =
    eq_coord_of a b (abs_sub_zero a.x b.x (omega arith)) (abs_sub_zero a.y b.y (omega arith))

-- A cell as close to the origin as every cell of an arena is.
pub record IsNear (a : Coord) : Type 0 where
  pub near_x : abs a.x < 2 ^ 61
  pub near_y : abs a.y < 2 ^ 61

sum_lt : (m n : ℕ) → m < 2 ^ 61 → n < 2 ^ 61 → m + n < 2 ^ 63
sum_lt m n h k = omega arith

near-small : (a b : Coord) → IsNear a → IsNear b → chebyshev_i64 a b ≡ pos (chebyshev a b)
near-small a b p q =
    chebyshev_i64-small a b (sum_lt _ _ p.near_x q.near_x) (sum_lt _ _ p.near_y q.near_y)

chebyshev-lt : (a b : Coord) → IsNear a → IsNear b → chebyshev a b < 2 ^ 62
unfolding chebyshev
chebyshev-lt a b p q =
    omega (arith, p.near_x, p.near_y, q.near_x, q.near_y, abs_sub_le a.x b.x, abs_sub_le a.y b.y)

-- A sum of two distances does not wrap around.
sum-small :
    (a b c : Coord)
    → IsNear a
    → IsNear b
    → IsNear c
    → wrap_i64 (chebyshev_i64 a b +ℤ chebyshev_i64 b c) ≡ pos (chebyshev a b + chebyshev b c)
sum-small a b c p q r =
    ap₂ (λ u v. wrap_i64 (u +ℤ v)) (near-small a b p q) (near-small b c q r)
    ∙ ap wrap_i64 (pos_sum (chebyshev a b) (chebyshev b c))
    ∙ wrap_i64-small (pos (chebyshev a b + chebyshev b c))
        (omega (arith, chebyshev-lt a b p q, chebyshev-lt b c q r))

triangle_i64 :
    (a b c : Coord)
    → IsNear a
    → IsNear b
    → IsNear c
    → chebyshev_i64 a c ≤ℤ wrap_i64 (chebyshev_i64 a b +ℤ chebyshev_i64 b c)
triangle_i64 a b c p q r =
    let t = chebyshev_triangle a b c in rw (near-small a c p r, sum-small a b c p q r) (omega arith)

-- Between cells whose coordinates are below 2^61 in absolute value the distance on 64-bit integers,
-- with their wrap-around, is the distance on integers without bounds; it is symmetric, obeys the
-- triangle inequality with the sum that wraps around too, and is zero exactly from a cell to itself.
pub chebyshev_metric :
    (a b c : Coord)
    → IsNear a
    → IsNear b
    → IsNear c
    → (chebyshev_i64 a b ≡ pos (chebyshev a b))
      × (chebyshev_i64 a b ≡ chebyshev_i64 b a)
      × (chebyshev_i64 a c ≤ℤ wrap_i64 (chebyshev_i64 a b +ℤ chebyshev_i64 b c))
      × ((chebyshev_i64 a b ≡ pos 0) ↔ (a ≡ b))
chebyshev_metric a b c p q r = (
  near-small a b p q,
  near-small a b p q ∙ ap pos (chebyshev_comm a b) ∙ sym (near-small b a q p),
  triangle_i64 a b c p q r,
  (
    λ e. chebyshev_zero a b (ap pos_part (sym (near-small a b p q) ∙ e)),
    λ e. near-small a b p q ∙ ap pos (subst (λ z. chebyshev a z ≡ 0) e (chebyshev_self a)),
  ),
)

pub chebyshev-add : (a d : Coord) → chebyshev a (add a d) ≡ max (abs d.x) (abs d.y)
unfolding chebyshev add
chebyshev-add a d = ap₂ max (abs_sub-add a.x d.x) (abs_sub-add a.y d.y)

delta_unit : (h : ℕ) → h < 8 → max (abs (delta h).x) (abs (delta h).y) ≡ 1
unfolding delta
delta_unit =
    below_eight (λ h. max (abs (delta h).x) (abs (delta h).y) ≡ 1) refl refl refl refl refl refl
      refl refl

-- One step along any of the eight headings is a move to a cell at distance exactly one.
pub chebyshev-add-delta : (a : Coord) (h : ℕ) → h < 8 → chebyshev a (add a (delta h)) ≡ 1
chebyshev-add-delta a h l = chebyshev-add a (delta h) ∙ delta_unit h l
