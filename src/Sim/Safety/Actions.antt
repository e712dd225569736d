-- ===== src/Sim/Safety/Actions.antt =====
-- Each primary action, and `apply`, keeps the world safe.
use robocolony.Common.{ℕ, ◌-◌, ◌<◌, ◌≡◌, refl, ◌∙◌, sym, true, false, not, arith, inl, inr}
use robocolony.Common.{List, [], ◌∷◌, Option, none, some, length, set, All-modify}
use robocolony.Common.{All-get, Bool-cases, length-set, ◌||◌, ltb, pos, pos_part, negsuc}
use robocolony.Sim.Grid.{Coord, turn, eq_coord, add, delta, heading_to, heading_count, chebyshev}
use robocolony.Sim.Grid.Facing.{turn_action, heading_to-lt}
use robocolony.Sim.Blueprint.{locomotion_of}
use robocolony.Sim.World.State.{World, Robot, Base, MemPoint, MemWrite, Action, ActionKind, Rng}
use robocolony.Sim.World.Access.{passable, put, is_destroyed}
use robocolony.Sim.Actions.Move.{along, step_to, follow, move_to}
use robocolony.Sim.Actions.Combat.{
  attack, fire, shoot, aim, hit, credit_kill, enemy_at, ready_weapon,
}
use robocolony.Sim.Actions.Cargo.{
  take_component, bank, receive, deposit_event, pick_up, deposit, drop,
}
use robocolony.Sim.Actions.Apply.{unset_point, primary, apply, write_all, write_memory}
use robocolony.Common.{◌==◌}
use robocolony.Sim.Catalogue.{variant_none, kind_manipulator}
use robocolony.Sim.Actions.Combat.Target.{enemy_at-found}
use robocolony.Sim.Perception.{component_in_reach}
use robocolony.Sim.Blueprint.{has}
use robocolony.Sim.World.Access.{base_of, interact_range}
use robocolony.Sim.World.State.{LooseComponent}
use robocolony.Sim.Catalogue.{WeaponSpec}
use robocolony.Sim.World.State.{
  act_none, act_move_forward, act_turn_left, act_turn_right, act_stop, act_move_to, act_pick_up,
  act_deposit, act_drop, act_turn_random, act_attack,
}
use robocolony.Sim.Nav.{path}
use robocolony.Sim.Safety.{
  reframe, bases-Holds, RobotOk, BaseOk, Holds, passable-Holds, put-Holds, update-Holds, emit-Holds,
  drop_at-Holds, update_stats-Holds,
}

-- The length of the registers does not change.
length-write_all :
    (memory : List MemPoint) (ms : List MemWrite) → length (write_all memory ms) ≡ length memory
unfolding write_all write_memory
length-write_all memory [] = refl
length-write_all memory (m ∷ ms) = length-write_all (write_memory memory m) ms ∙ one
  where
    one : length (write_memory memory m) ≡ length memory
    one = ground (
      arith,
      length-set memory (pos_part m.point) unset_point,
      length-set memory (pos_part m.point) (record { coord = m.coord; is_set = true }),
    )

module _ {G : Type 0} {o : World G} where
  step_to-Holds :
      {w : World G} (i : ℕ) (r : Robot) (c : Coord)
      → Holds o w
      → RobotOk o r
      → Holds o (step_to w i r c).0
  unfolding step_to
  step_to-Holds {w} i r c s k = elim (Bool-cases (passable w c (locomotion_of r.blueprint))) [
    | inl e ↦
        let stands = sym (passable-Holds s c (locomotion_of r.blueprint)) ∙ e in
        rw (e, step_to) (put-Holds i s (ground arith))
    | inr e ↦ rw (e, step_to) (put-Holds i s (ground arith))
  ]

  follow-Holds :
      {w : World G} (i : ℕ) (r : Robot) (dest next : Coord)
      → Holds o w
      → RobotOk o r
      → Holds o (follow w i r dest next).0
  unfolding follow
  follow-Holds {w} i r dest next s k =
      let turned = record r { heading = heading_to r.coord next } in
      update-Holds i _ (λ a ok. ground arith)
        (step_to-Holds i turned next s (ground (arith, heading_to-lt r.coord next)))

  along-Holds :
      {w : World G} (i : ℕ) (r : Robot) (dest : Coord) (p : List Coord)
      → Holds o w
      → RobotOk o r
      → Holds o (along w i r dest p).0
  unfolding along
  along-Holds i r dest [] s k = put-Holds i s (ground arith)
  along-Holds i r dest (next ∷ rest) s k =
      follow-Holds i (record r { target_unreachable = false; target_reached = false }) dest next s
        (ground arith)

  move_to-Holds :
      {w : World G} (i : ℕ) (r : Robot) (dest : Coord)
      → Holds o w
      → RobotOk o r
      → Holds o (move_to w i r dest).0
  unfolding move_to
  move_to-Holds {w} i r dest s k = elim (Bool-cases (eq_coord r.coord dest)) [
    | inl e ↦ rw (e, move_to) (put-Holds i s (ground arith))
    | inr e ↦
        rw (e, move_to) (along-Holds i r dest (path w (locomotion_of r.blueprint) r.coord dest) s k)
  ]

  hit-Holds :
      {w : World G} (r : Robot) (j : ℕ) (t : Robot) (damage : ℕ)
      → Holds o w
      → RobotOk o t
      → Holds o (hit w r j t damage)
  unfolding hit credit_kill
  hit-Holds {w} r j t damage s k =
      let s' =
        put-Holds j s
          (let q : RobotOk o (record t { health = t.health - damage }) = ground arith in q) in
      elim (Bool-cases (is_destroyed (record t { health = t.health - damage }))) [
        | inl e ↦ rw (e, hit, credit_kill) (emit-Holds _ (update_stats-Holds r.colony _ s'))
        | inr e ↦ rw (e, hit, credit_kill) s'
      ]

  take_component-Holds :
      {w : World G} (i : ℕ) (r : Robot) (l : Option (ℕ × LooseComponent))
      → Holds o w
      → RobotOk o r
      → Holds o (take_component w i r l)
  unfolding take_component
  take_component-Holds i r none s k = s
  take_component-Holds i r (some (j, l)) s k =
      reframe refl refl refl refl refl refl refl
        (put-Holds i s (let q : RobotOk o (record r { cargo = l.variant }) = ground arith in q))

  bank-Holds :
      {w : World G} (i : ℕ) (r : Robot) (b : Option (ℕ × Base))
      → Holds o w
      → RobotOk o r
      → Holds o (bank w i r b)
  unfolding bank
  bank-Holds i r none s k = s
  bank-Holds {w} i r (some (n, b)) s k =
      elim (Bool-cases (ltb interact_range (chebyshev r.coord b.coord))) [
        | inl e ↦ rw (e, bank) s
        | inr e ↦
            let s' =
              bases-Holds {w = w} _
                (All-modify (BaseOk o) (receive r.cargo) (λ a h. h) w.bases n s.bases) s in
            rw (e, bank) (emit-Holds (deposit_event r) (put-Holds i s' (ground arith)))
      ]

  pick_up-Holds :
      {w : World G} (i : ℕ) (r : Robot) → Holds o w → RobotOk o r → Holds o (pick_up w i r)
  unfolding pick_up
  pick_up-Holds {w} i r s k =
      elim (Bool-cases (not (has r.blueprint kind_manipulator) || not (r.cargo == variant_none))) [
        | inl e ↦ rw (e, pick_up) s
        | inr e ↦ rw (e, pick_up) (take_component-Holds i r (component_in_reach w r) s k)
      ]

  deposit-Holds :
      {w : World G} (i : ℕ) (r : Robot) → Holds o w → RobotOk o r → Holds o (deposit w i r)
  unfolding deposit
  deposit-Holds {w} i r s k =
      elim (Bool-cases (not (has r.blueprint kind_manipulator) || r.cargo == variant_none)) [
        | inl e ↦ rw (e, deposit) s
        | inr e ↦ rw (e, deposit) (bank-Holds i r (base_of w r.colony) s k)
      ]

  drop-Holds : {w : World G} (i : ℕ) (r : Robot) → Holds o w → RobotOk o r → Holds o (drop w i r)
  unfolding drop
  drop-Holds {w} i r s k = elim (Bool-cases (r.cargo == variant_none)) [
    | inl e ↦ rw (e, drop) s
    | inr e ↦ rw (e, drop) (put-Holds i (drop_at-Holds r.coord r.cargo s) (ground arith))
  ]

  module _ ⦃g : Rng G⦄ where
    fire-Holds :
        {w : World G} (i : ℕ) (r : Robot) (j : ℕ) (t : Robot) (slot : ℕ) (spec : WeaponSpec)
        → Holds o w
        → RobotOk o r
        → RobotOk o t
        → Holds o (fire w i r j t slot spec)
    unfolding fire
    fire-Holds {w} i r j t slot spec s k kt =
        let armed = record r { weapon_cooldown = set r.weapon_cooldown slot spec.cooldown } in
        let ok : RobotOk o armed =
          ground (arith, length-set r.weapon_cooldown slot spec.cooldown) in
        let w2 = record w { robots = set w.robots i armed; rng = (g.intn w.rng 100).1 } in
        let s2 : Holds o w2 = reframe refl refl refl refl refl refl refl (put-Holds i s ok) in
        elim (Bool-cases (ltb (g.intn w.rng 100).0 spec.accuracy)) [
          | inl e ↦ rw (e, fire) (hit-Holds r j t spec.damage s2 kt)
          | inr e ↦ rw (e, fire) s2
        ]

    shoot-Holds :
        {w : World G} (i : ℕ) (r : Robot) (j : ℕ) (t : Robot) (a : Option (ℕ × WeaponSpec))
        → Holds o w
        → RobotOk o r
        → RobotOk o t
        → Holds o (shoot w i r j t a).0
    unfolding shoot
    shoot-Holds i r j t none s k kt = s
    shoot-Holds i r j t (some (slot, spec)) s k kt = fire-Holds i r j t slot spec s k kt

    aim-Holds :
        {w : World G} (i : ℕ) (r : Robot) (c : Coord) (t : Option (ℕ × Robot))
        → enemy_at w r.colony c ≡ t
        → Holds o w
        → RobotOk o r
        → Holds o (aim w i r c t).0
    unfolding aim
    aim-Holds i r c none e s k = s
    aim-Holds {w} i r c (some (j, t)) e s k =
        let kt = All-get (RobotOk o) w.robots j (enemy_at-found w r.colony c e).0 s.robots in
        shoot-Holds i r j t (ready_weapon r (chebyshev r.coord c)) s k kt

    attack-Holds :
        {w : World G} (i : ℕ) (r : Robot) (c : Coord)
        → Holds o w
        → RobotOk o r
        → Holds o (attack w i r c).0
    unfolding attack
    attack-Holds {w} i r c s k = aim-Holds i r c (enemy_at w r.colony c) refl s k

    faced :
        {w : World G} (i : ℕ) (r : Robot) (h : ℕ)
        → h < 8
        → Holds o w
        → RobotOk o r
        → Holds o (put w i (record r { heading = h }))
    faced i r h l s k = put-Holds i s (ground arith)

    primary-Holds :
        {w : World G} (i : ℕ) (r : Robot) (kind : ActionKind) (a : Action)
        → a.kind ≡ kind
        → Holds o w
        → RobotOk o r
        → Holds o (primary w i r a).0
    unfolding primary
    primary-Holds i r act_none a e s k = rw (e, primary) s
    primary-Holds i r act_stop a e s k = rw (e, primary) s
    primary-Holds i r act_move_forward a e s k =
        rw (e, primary) (step_to-Holds i r (add r.coord (delta r.heading)) s k)
    primary-Holds i r act_turn_left a e s k =
        rw (e, primary)
          (faced i r (turn r.heading (negsuc 0)) (turn_action r.heading (negsuc 0) (pos 0)).0 s k)
    primary-Holds i r act_turn_right a e s k =
        rw (e, primary)
          (faced i r (turn r.heading (pos 1)) (turn_action r.heading (pos 1) (pos 0)).0 s k)
    primary-Holds {w} i r act_turn_random a e s k =
        rw (e, primary)
          (reframe refl refl refl refl refl refl refl (
            faced i r (g.intn w.rng heading_count).0 (g.intn-lt w.rng heading_count (omega arith)) s
              k))
    primary-Holds i r act_move_to a e s k = rw (e, primary) (move_to-Holds i r a.coord s k)
    primary-Holds i r act_attack a e s k = rw (e, primary) (attack-Holds i r a.coord s k)
    primary-Holds i r act_pick_up a e s k = rw (e, primary) (pick_up-Holds i r s k)
    primary-Holds i r act_deposit a e s k = rw (e, primary) (deposit-Holds i r s k)
    primary-Holds i r act_drop a e s k = rw (e, primary) (drop-Holds i r s k)

    -- `apply` keeps the world safe, for every action of a controller.
    pub apply-Holds :
        {w : World G} (i : ℕ) (r : Robot) (a : Action)
        → Holds o w
        → RobotOk o r
        → Holds o (apply w i r a).0
    unfolding apply
    apply-Holds {w} i r a s k =
        let r' = record r { memory = write_all r.memory a.memory } in
        let ok : RobotOk o r' = ground (arith, length-write_all r.memory a.memory) in
        update-Holds i _ (λ b h. ground arith)
          (primary-Holds i r' a.kind a refl (put-Holds i s ok) ok)
