-- ===== src/Sim/Conservation.antt =====
-- Components are conserved: what lies on the ground, is carried or installed, is stored in a base
-- or is being assembled there. The census counts one variant, for each of these places.
pub mod Actions
pub mod Production
pub mod Step
pub mod Sweep
use robocolony.Common.{
  ℕ, ◌+◌, ◌≡◌, ◌≢◌, refl, sym, ◌∙◌, Bool, ◌==◌, ltb, if◌then◌else◌, arith, List, [], ◌∷◌, ◌++◌,
  some,
}
use robocolony.Common.{
  sum_of, sum_of-set, sum_of-modify_same, sum_of-append, get_elem?, set, modify,
}
use robocolony.Sim.Grid.{Coord}
use robocolony.Sim.Catalogue.{variant_none}
use robocolony.Sim.World.State.{World, Robot, Base, Stats, Event, LooseComponent, BuildOrder}
use robocolony.Sim.World.Access.{put, update, emit, drop_at, allocate_id, update_stats, base_of}
use robocolony.Sim.World.Inventory.Laws.{one_of, occurrences, stock}

-- A robot's cargo and its installed components.
abbrev pub held : ℕ → Robot → ℕ
held v r = one_of v r.cargo + occurrences v r.blueprint.components

-- What a build order holds: nothing where the base is idle.
abbrev pub ordered : ℕ → BuildOrder → ℕ
ordered v o = if ltb 0 o.ticks then occurrences v o.blueprint.components else 0

abbrev pub in_base : ℕ → Base → ℕ
in_base v b = stock v b.inventory + ordered v b.build

abbrev pub on_ground : ℕ → List LooseComponent → ℕ
on_ground v = sum_of (λ (l : LooseComponent). one_of v l.variant)

-- The census of the variant `v`.
abbrev pub census : {G : Type 0} → ℕ → World G → ℕ
census v w = on_ground v w.loose + sum_of (held v) w.robots + sum_of (in_base v) w.bases

module _ {G : Type 0} (v : ℕ) where
  pub census-put :
      (w : World G) (i : ℕ) (r r' : Robot)
      → get_elem? w.robots i ≡ some r
      → census v (put w i r') + held v r ≡ census v w + held v r'
  census-put w i r r' e = omega (arith, sum_of-set (held v) w.robots i r r' e)

  pub census-update :
      (w : World G) (i : ℕ) (f : Robot → Robot)
      → ((r : Robot) → held v (f r) ≡ held v r)
      → census v (update w i f) ≡ census v w
  census-update w i f same = omega (arith, sum_of-modify_same (held v) f same w.robots i)

  pub census-emit : (w : World G) (e : Event) → census v (emit w e) ≡ census v w
  unfolding emit
  census-emit w e = refl

  pub census-drop_at :
      (w : World G) (c : Coord) (x : ℕ) → census v (drop_at w c x) ≡ census v w + one_of v x
  unfolding drop_at allocate_id
  census-drop_at w c x = omega (
    arith,
    sum_of-append (λ (l : LooseComponent). one_of v l.variant) w.loose
        (record { id = w.next_id + 1; coord = c; variant = x } ∷ []),
  )
