-- ===== src/Sim/Actions/Combat.antt =====
-- Combat: `readyWeapon`, `enemyAt` and `attack` of internal/sim/tick.go.
pub mod Target
use robocolony.Common.{ℕ, suc, ◌+◌, ◌-◌, ◌||◌, not, ltb, leb, ◌==◌}
use robocolony.Common.{if◌then◌else◌, List, [], ◌∷◌, Option, none, some, get_or, set}
use robocolony.Sim.Grid.{Coord, eq_coord, chebyshev}
use robocolony.Sim.Catalogue.{WeaponSpec, weapon_stats, max_weapons}
use robocolony.Sim.Blueprint.{weapons}
use robocolony.Sim.Speed.{idle_ticks, attack_ticks}
use robocolony.Sim.World.State.{World, Robot, Stats, Event}
use robocolony.Sim.World.State.{event_loss, Rng}
use robocolony.Sim.World.Access.{put, update_stats, emit}
use robocolony.Sim.World.Access.{is_destroyed}

-- The loop of `readyWeapon`, from slot `i` on.
unfoldable pub ready_from : List ℕ → ℕ → ℕ → List ℕ → Option (ℕ × WeaponSpec)
ready_from cooldowns dist i [] = none
ready_from cooldowns dist i (v ∷ vs) =
    let rest = ready_from cooldowns dist (suc i) vs in
    if leb max_weapons i then none else elim (weapon_stats v) [
      | none ↦ rest
      | some s ↦ if ltb 0 (get_or cooldowns i 0) || ltb s.reach dist then rest else some (i, s)
    ]

unfoldable pub ready_weapon : Robot → ℕ → Option (ℕ × WeaponSpec)
ready_weapon r dist = ready_from r.weapon_cooldown dist 0 (weapons r.blueprint)

-- The body of the loop of `enemyAt`: the robot with index `i` against the best so far.
unfoldable pub closer_target : ℕ → Coord → ℕ → Robot → Option (ℕ × Robot) → Option (ℕ × Robot)
closer_target colony c i o best =
    if o.colony == colony || not (eq_coord o.coord c) || is_destroyed o then best else elim best [
      | none ↦ some (i, o)
      | some (j, b) ↦ if ltb o.id b.id then some (i, o) else some (j, b)
    ]

unfoldable pub enemy_from : ℕ → Coord → ℕ → List Robot → Option (ℕ × Robot) → Option (ℕ × Robot)
enemy_from colony c i [] best = best
enemy_from colony c i (o ∷ os) best =
    enemy_from colony c (suc i) os (closer_target colony c i o best)

-- The kill of a target that the shot brought to zero health.
abbrev pub loss_event : Robot → Robot → Event
loss_event r target = record {
  tick = 0;
  kind = event_loss;
  colony = target.colony;
  robot = target.id;
  blueprint = target.blueprint.id;
  attacker = r.id;
  attacker_colony = r.colony;
}

module _ {G : Type 0} where
  -- The index of the enemy robot at the cell, and the robot.
  unfoldable pub enemy_at : World G → ℕ → Coord → Option (ℕ × Robot)
  enemy_at w colony c = enemy_from colony c 0 w.robots none

  unfoldable pub credit_kill : World G → Robot → Robot → World G
  credit_kill w r target =
      if is_destroyed target
      then emit (update_stats w r.colony (λ (s : Stats). record s { kills = s.kills + 1 }))
          (loss_event r target)
      else w

  -- `Health - Damage` clamped at zero, and what follows from it.
  unfoldable pub hit : World G → Robot → ℕ → Robot → ℕ → World G
  hit w r j target damage =
      let target' = record target { health = target.health - damage } in
      credit_kill (put w j target') r target'

  module _ ⦃g : Rng G⦄ where
    -- The shot: the weapon's reload, the accuracy roll, and the hit.
    unfoldable pub fire : World G → ℕ → Robot → ℕ → Robot → ℕ → WeaponSpec → World G
    fire w i r j target slot spec =
        let w1 =
          put w i (record r { weapon_cooldown = set r.weapon_cooldown slot spec.cooldown }) in
        let (roll, rng) = g.intn w1.rng 100 in
        let w2 = record w1 { rng = rng } in
        if ltb roll spec.accuracy then hit w2 r j target spec.damage else w2

    -- The attack on a target, with the weapon that is ready for it.
    unfoldable pub shoot : World G → ℕ → Robot → ℕ → Robot → Option (ℕ × WeaponSpec) → World G × ℕ
    shoot w i r j target none = (w, idle_ticks)
    shoot w i r j target (some (slot, spec)) = (fire w i r j target slot spec, attack_ticks)

    unfoldable pub aim : World G → ℕ → Robot → Coord → Option (ℕ × Robot) → World G × ℕ
    aim w i r c none = (w, idle_ticks)
    aim w i r c (some (j, target)) = shoot w i r j target (ready_weapon r (chebyshev r.coord c))

    unfoldable pub attack : World G → ℕ → Robot → Coord → World G × ℕ
    attack w i r c = aim w i r c (enemy_at w r.colony c)
