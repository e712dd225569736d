-- ===== src/Sim/Grid/Wrapped.antt =====
-- `Chebyshev` and `abs` of internal/sim/world.go on the 64-bit `int` that they compute with, wrap-around
-- included.
use robocolony.Common.{
  suc, max, ◌≤◌, refl, if_true, ap, ap₂, ◌∙◌, lt→ltb, le→ltb_false, ℕ, ◌+◌, ◌-◌, ◌%◌, ◌^◌, ◌<◌, ◌≡◌,
  arith, if◌then◌else◌, ltb, ℤ, pos, negsuc, pos_part, neg_part, ◌-ℤ◌, abs, ltb_ℤ, leb_ℤ,
}
use robocolony.Sim.Grid.{Coord, chebyshev}

-- The number of 64 bits, in two's complement, and what the bits stand for.
abbrev bits_of : ℤ → ℕ
bits_of a = (pos_part a + (2 ^ 64 - neg_part a % 2 ^ 64)) % 2 ^ 64

abbrev int_of_bits : ℕ → ℤ
int_of_bits n = if ltb n (2 ^ 63) then pos n else negsuc (2 ^ 64 - 1 - n)

-- An `int` keeps the low 64 bits of a result.
unfoldable pub wrap_i64 : ℤ → ℤ
wrap_i64 a = int_of_bits (bits_of a)

unfoldable pub abs_i64 : ℤ → ℤ
abs_i64 v = if ltb_ℤ v (pos 0) then wrap_i64 (pos 0 -ℤ v) else v

abbrev max_ℤ : ℤ → ℤ → ℤ
max_ℤ a b = if leb_ℤ a b then b else a

unfoldable pub chebyshev_i64 : Coord → Coord → ℤ
chebyshev_i64 c o = max_ℤ (abs_i64 (wrap_i64 (c.x -ℤ o.x))) (abs_i64 (wrap_i64 (c.y -ℤ o.y)))

wrap_i64-pos : (n : ℕ) → n < 2 ^ 63 → wrap_i64 (pos n) ≡ pos n
unfolding wrap_i64
wrap_i64-pos n h =
    let same : (n + 2 ^ 64) % 2 ^ 64 ≡ n = omega arith in rw (same, lt→ltb n (2 ^ 63) h) refl

wrap_i64-negsuc : (n : ℕ) → n < 2 ^ 63 → wrap_i64 (negsuc n) ≡ negsuc n
unfolding wrap_i64
wrap_i64-negsuc n h =
    let bits : bits_of (negsuc n) ≡ 2 ^ 64 - 1 - n = omega arith in
    let back : 2 ^ 64 - 1 - (2 ^ 64 - 1 - n) ≡ n = omega arith in
    rw (bits, le→ltb_false (2 ^ 64 - 1 - n) (2 ^ 63) (omega arith), back) refl

pub wrap_i64-small : (a : ℤ) → abs a < 2 ^ 63 → wrap_i64 a ≡ a
wrap_i64-small (pos n) h = wrap_i64-pos n (omega arith)
wrap_i64-small (negsuc n) h = wrap_i64-negsuc n (omega arith)

opposite : (n : ℕ) → pos 0 -ℤ negsuc n ≡ pos (suc n)
unfolding ◌-ℤ◌
opposite n = ground arith

zero_left : (n : ℕ) → suc n ≡ 0 + suc n
zero_left n = omega arith

abs_i64-small : (a : ℤ) → abs a < 2 ^ 63 → abs_i64 a ≡ pos (abs a)
unfolding abs_i64
abs_i64-small (pos n) h = ground arith
abs_i64-small (negsuc n) h =
    if_true _ _ (lt→ltb 0 (0 + suc n) (omega arith))
    ∙ ap wrap_i64 (opposite n)
    ∙ wrap_i64-pos (suc n) (omega arith)
    ∙ ap pos (zero_left n)

pub abs_sub_le : (a b : ℤ) → abs (a -ℤ b) ≤ abs a + abs b
unfolding ◌-ℤ◌
abs_sub_le a b = ground arith

-- The distance along one axis when nothing wraps around.
axis-small : (a b : ℤ) → abs a + abs b < 2 ^ 63 → abs_i64 (wrap_i64 (a -ℤ b)) ≡ pos (abs (a -ℤ b))
axis-small a b h =
    let le = abs_sub_le a b in
    ap abs_i64 (wrap_i64-small (a -ℤ b) (omega arith)) ∙ abs_i64-small (a -ℤ b) (omega arith)

max_ℤ-pos : (m n : ℕ) → max_ℤ (pos m) (pos n) ≡ pos (max m n)
max_ℤ-pos m n = ground arith

pub chebyshev_i64-small :
    (a b : Coord)
    → abs a.x + abs b.x < 2 ^ 63
    → abs a.y + abs b.y < 2 ^ 63
    → chebyshev_i64 a b ≡ pos (chebyshev a b)
unfolding chebyshev_i64 chebyshev
chebyshev_i64-small a b h k =
    ap₂ max_ℤ (axis-small a.x b.x h) (axis-small a.y b.y k) ∙ max_ℤ-pos _ _
