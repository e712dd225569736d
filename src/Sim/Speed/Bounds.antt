-- ===== src/Sim/Speed/Bounds.antt =====
-- Bounds and monotonicity of the speed model.
use robocolony.Common.{
  pos, pos_part, ℕ, ◌+◌, ◌-◌, ◌*◌, ◌/◌, ◌≤◌, ◌<◌, ◌≡◌, refl, sym, ap, ◌∙◌, ℤ, max, ◌⊎◌, inl, inr,
  arith, ◌+ℤ◌, ◌-ℤ◌,
}
use robocolony.Sim.Catalogue.{locomotion_stats, legs, tracks}
use robocolony.Sim.Terrain.{speed_bonus, terrain_spec, open_ground, rubble, sand}
use robocolony.Sim.Blueprint.{Blueprint, mass, locomotion_of}
use robocolony.Sim.Speed.{
  speed_on, move_ticks, turn_ticks, effective_speed, speed_scale, build_ticks,
}

speed_on-ge : (bp : Blueprint) (t : ℕ) → 2 ≤ speed_on bp t
unfolding speed_on
speed_on-ge bp t = omega arith

ceiling_below : (s : ℕ) → 2 ≤ s → 24 ≤ (speed_scale + s - 1) / s * s
ceiling_below s h = grind arith

ceiling_above : (s : ℕ) → 2 ≤ s → ((speed_scale + s - 1) / s - 1) * s < 24
ceiling_above s h = grind arith

ceiling_range : (s : ℕ) → 2 ≤ s → (1 ≤ (speed_scale + s - 1) / s) × ((speed_scale + s - 1) / s ≤ 12)
ceiling_range s h = grind arith

-- The inner `max` of `moveTicks` never takes effect.
move_ticks-eq :
    (bp : Blueprint) (t : ℕ) → move_ticks bp t ≡ (speed_scale + speed_on bp t - 1) / speed_on bp t
unfolding move_ticks
move_ticks-eq bp t = omega (arith, ceiling_range (speed_on bp t) (speed_on-ge bp t))

-- Crossing a cell takes the quotient of the speed scale by the speed, rounded up; so between one
-- and twelve ticks, for every blueprint and every terrain. Turning takes between one and four.
pub move_ticks_bounds :
    (bp : Blueprint) (t : ℕ)
    → (speed_scale ≤ move_ticks bp t * speed_on bp t)
      × ((move_ticks bp t - 1) * speed_on bp t < speed_scale)
      × (1 ≤ move_ticks bp t)
      × (move_ticks bp t ≤ 12)
      × (1 ≤ turn_ticks bp)
      × (turn_ticks bp ≤ 4)
unfolding turn_ticks
move_ticks_bounds bp t = rw (move_ticks-eq bp t) (
  ceiling_below (speed_on bp t) (speed_on-ge bp t),
  ceiling_above (speed_on bp t) (speed_on-ge bp t),
  (ceiling_range (speed_on bp t) (speed_on-ge bp t)).0,
  (ceiling_range (speed_on bp t) (speed_on-ge bp t)).1,
  omega arith,
  omega (
    arith,
    move_ticks-eq bp open_ground,
    ceiling_range (speed_on bp open_ground) (speed_on-ge bp open_ground),
  ),
)

div_mono : (m n d : ℕ) → m ≤ n → m / d ≤ n / d
div_mono m n d h = grind arith

formula_antitone :
    (b q q' n : ℕ)
    → q ≤ q'
    → pos_part (pos b -ℤ pos q' +ℤ pos n) ≤ pos_part (pos b -ℤ pos q +ℤ pos n)
unfolding ◌+ℤ◌ ◌-ℤ◌
formula_antitone b q q' n h = ground arith

-- Of two speeds the greater one takes at most as many ticks.
ticks_antitone :
    (s s' : ℕ) → 2 ≤ s → s ≤ s' → (speed_scale + s' - 1) / s' ≤ (speed_scale + s - 1) / s
ticks_antitone s s' h l = grind (arith, ceiling_above s' (omega arith), ceiling_below s h)

slower_on :
    (a b : Blueprint) (t : ℕ)
    → locomotion_of a ≡ locomotion_of b
    → mass a ≤ mass b
    → speed_on b t ≤ speed_on a t
unfolding speed_on
slower_on a b t l m = rw l (
    omega (
      arith,
      formula_antitone (locomotion_stats (locomotion_of b)).base_speed
          (mass a / (locomotion_stats (locomotion_of b)).mass_per_speed_point)
          (mass b / (locomotion_stats (locomotion_of b)).mass_per_speed_point)
          (speed_bonus t (locomotion_stats (locomotion_of b)).variant)
          (div_mono (mass a) (mass b) (locomotion_stats (locomotion_of b)).mass_per_speed_point m),
    ))

-- Of two blueprints with the same locomotion the heavier one is nowhere faster, and never
-- crosses a cell in fewer ticks nor is built in fewer.
pub speed_on_antitone :
    (a b : Blueprint) (t : ℕ)
    → locomotion_of a ≡ locomotion_of b
    → mass a ≤ mass b
    → (speed_on b t ≤ speed_on a t)
      × (move_ticks a t ≤ move_ticks b t)
      × (build_ticks a ≤ build_ticks b)
unfolding build_ticks
speed_on_antitone a b t l m = (
  slower,
  rw (move_ticks-eq a t, move_ticks-eq b t)
      (ticks_antitone (speed_on b t) (speed_on a t) (speed_on-ge b t) slower),
  omega (arith, div_mono (mass a) (mass b) 3 m),
)
  where
    slower : speed_on b t ≤ speed_on a t
    slower = slower_on a b t l m

-- Rubble is favored for legs, and sand for tracks.
abbrev pub Favors : ℕ → ℕ → Type 0
Favors t l = (t ≡ rubble) × (l ≡ legs) ⊎ (t ≡ sand) × (l ≡ tracks)

bonus_cases :
    (t l : ℕ) → Favors t l × (speed_bonus t l ≡ 4) ⊎ (¬ Favors t l) × (speed_bonus t l ≡ 0)
unfolding speed_bonus terrain_spec
bonus_cases t l = ground arith

bonus_on_open_ground : (l : ℕ) → speed_bonus open_ground l ≡ 0
unfolding speed_bonus terrain_spec
bonus_on_open_ground l = ground arith

stats_variant : (l : ℕ) → (locomotion_stats l).variant ≡ l
unfolding locomotion_stats
stats_variant l = ground arith

floored : ℤ → ℕ → ℕ
floored z n = max (pos_part (z +ℤ pos n)) 2

floored-add : (z : ℤ) (n : ℕ) → (floored z 0 ≡ 2) ⊎ (floored z n ≡ floored z 0 + n)
unfolding floored ◌+ℤ◌
floored-add z n = ground arith

-- The speed before the terrain counts.
speed_left : Blueprint → ℤ
speed_left bp =
    let s = locomotion_stats (locomotion_of bp) in
    pos s.base_speed -ℤ pos (mass bp / s.mass_per_speed_point)

speed_on-floored :
    (bp : Blueprint) (t : ℕ)
    → speed_on bp t ≡ floored (speed_left bp) (speed_bonus t (locomotion_of bp))
unfolding speed_on floored speed_left
speed_on-floored bp t = rw (stats_variant (locomotion_of bp)) refl

effective_speed-floored : (bp : Blueprint) → effective_speed bp ≡ floored (speed_left bp) 0
unfolding effective_speed
effective_speed-floored bp =
    speed_on-floored bp open_ground
    ∙ ap (floored (speed_left bp)) (bonus_on_open_ground (locomotion_of bp))

speed_on_range :
    (bp : Blueprint) (t : ℕ)
    → (effective_speed bp ≤ speed_on bp t) × (speed_on bp t ≤ effective_speed bp + 4)
unfolding effective_speed speed_on speed_bonus terrain_spec ◌+ℤ◌ ◌-ℤ◌
speed_on_range bp t = ground arith

-- What the terrain does to the speed.
abbrev pub Modifies : Blueprint → ℕ → Type 0
Modifies bp t =
    Favors t (locomotion_of bp)
      × ((effective_speed bp ≡ 2) ⊎ (speed_on bp t ≡ effective_speed bp + 4))
    ⊎ (¬ Favors t (locomotion_of bp)) × (speed_on bp t ≡ effective_speed bp)

speed_on-Modifies : (bp : Blueprint) (t : ℕ) → Modifies bp t
speed_on-Modifies bp t = elim (bonus_cases t (locomotion_of bp)) [
  | inl (f, e) ↦ inl (
    f,
    elim (floored-add (speed_left bp) 4) [
      | inl least ↦ inl (effective_speed-floored bp ∙ least)
      | inr more ↦ inr (
          speed_on-floored bp t
          ∙ ap (floored (speed_left bp)) e
          ∙ more
          ∙ ap (λ n. n + 4) (sym (effective_speed-floored bp)))
    ],
  )
  | inr (f, e) ↦
      inr (
        f,
        speed_on-floored bp t ∙ ap (floored (speed_left bp)) e ∙ sym (effective_speed-floored bp),
      )
]

-- A terrain's bonus never slows a robot down: no terrain is slower than open ground, and none is
-- more than four points faster. Rubble for legs and sand for tracks are exactly four points faster,
-- unless the speed on open ground is the least one, 2; every other terrain is as fast as open ground.
pub speed_on-terrain :
    (bp : Blueprint) (t : ℕ)
    → (effective_speed bp ≤ speed_on bp t)
      × (speed_on bp t ≤ effective_speed bp + 4)
      × Modifies bp t
speed_on-terrain bp t =
    let range = speed_on_range bp t in (range.0, range.1, speed_on-Modifies bp t)
