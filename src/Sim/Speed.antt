-- ===== src/Sim/Speed.antt =====
-- The speed model and the action costs of internal/sim/tick.go.
pub mod Bounds
use robocolony.Common.{ℕ, ◌+◌, ◌-◌, ◌/◌, max, pos, pos_part, ◌+ℤ◌, ◌-ℤ◌}
use robocolony.Sim.Catalogue.{locomotion_stats}
use robocolony.Sim.Terrain.{speed_bonus, open_ground}
use robocolony.Sim.Blueprint.{Blueprint, mass, locomotion_of}

abbrev pub min_speed : ℕ
min_speed = 2

abbrev pub speed_scale : ℕ
speed_scale = 24

abbrev pub turn_tick_divisor : ℕ
turn_tick_divisor = 3

abbrev pub interact_ticks : ℕ
interact_ticks = 2

abbrev pub idle_ticks : ℕ
idle_ticks = 1

abbrev pub attack_ticks : ℕ
attack_ticks = 1

-- The sum may be negative before the floor, so it is an integer; the floor is not.
unfoldable pub speed_on : Blueprint → ℕ → ℕ
speed_on bp t =
    let s = locomotion_stats (locomotion_of bp) in
    max
      (pos_part (
        pos s.base_speed
        -ℤ pos (mass bp / s.mass_per_speed_point)
        +ℤ pos (speed_bonus t s.variant)))
      min_speed

unfoldable pub effective_speed : Blueprint → ℕ
effective_speed bp = speed_on bp open_ground

unfoldable pub move_ticks : Blueprint → ℕ → ℕ
move_ticks bp t = let s = speed_on bp t in max 1 ((speed_scale + s - 1) / s)

unfoldable pub turn_ticks : Blueprint → ℕ
turn_ticks bp = max 1 (move_ticks bp open_ground / turn_tick_divisor)

abbrev pub build_ticks_base : ℕ
build_ticks_base = 12

abbrev pub mass_per_build_tick : ℕ
mass_per_build_tick = 3

unfoldable pub build_ticks : Blueprint → ℕ
build_ticks bp = build_ticks_base + mass bp / mass_per_build_tick
