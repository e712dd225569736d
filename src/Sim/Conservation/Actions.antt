-- ===== src/Sim/Conservation/Actions.antt =====
-- Each action of a robot keeps the census: a component only changes place.
use robocolony.Common.{
  max, ℕ, ◌+◌, ◌-◌, ◌≡◌, ◌≢◌, refl, ap, ◌∙◌, sym, true, false, not, arith, inl, inr,
}
use robocolony.Common.{
  List, [], ◌∷◌, Option, none, some, set, modify, Bool-cases, Option-cases, get_elem?, ◌||◌, ◌==◌,
  ltb, subst, pos, negsuc,
}
use robocolony.Common.{
  sum_of-modify_same, sum_of-remove_at, sum_of-modify, get_elem?-set_found, get_elem?-set_ne,
}
use robocolony.Sim.Grid.{Coord, turn, eq_coord, add, delta, heading_to, heading_count, chebyshev}
use robocolony.Sim.Catalogue.{variant_none, kind_manipulator, WeaponSpec}
use robocolony.Sim.Blueprint.{has, locomotion_of}
use robocolony.Sim.World.State.{World, Robot, Base, Stats, LooseComponent, Action, ActionKind, Rng}
use robocolony.Sim.World.State.{
  act_none, act_move_forward, act_turn_left, act_turn_right, act_stop, act_move_to, act_pick_up,
  act_deposit, act_drop, act_turn_random, act_attack,
}
use robocolony.Sim.World.Access.{
  passable, put, allocate_id, drop_at, update_stats, base_of, is_destroyed, interact_range,
}
use robocolony.Sim.World.Access.Laws.{base_of-found}
use robocolony.Sim.World.Inventory.Laws.{one_of, stock-increment}
use robocolony.Sim.Nav.{path}
use robocolony.Sim.Perception.{component_in_reach}
use robocolony.Sim.Perception.Nearest.{Picks, component_in_reach-Picks}
use robocolony.Sim.Actions.Move.{along, step_to, follow, move_to}
use robocolony.Sim.Actions.Combat.{
  loss_event, attack, fire, shoot, aim, hit, credit_kill, enemy_at, ready_weapon,
}
use robocolony.Sim.Actions.Combat.Target.{target-colony, enemy_at-found, is_target}
use robocolony.Sim.Actions.Cargo.{
  take_component, bank, receive, deposit_event, pick_up, deposit, drop,
}
use robocolony.Sim.Actions.Apply.{primary, apply, write_all}
use robocolony.Sim.Conservation.{
  held, in_base, census, census-put, census-update, census-emit, census-drop_at,
}

-- A target is another robot than the shooter.
target-ne :
    (all : List Robot) (colony : ℕ) (c : Coord) (i j : ℕ) (r t : Robot)
    → get_elem? all i ≡ some r
    → get_elem? all j ≡ some t
    → r.colony ≡ colony
    → is_target colony c t ≡ true
    → i ≢ j
target-ne all colony c i j r t e f p q same =
    let moved : get_elem? all j ≡ some r = subst (λ n. get_elem? all n ≡ some r) same e in
    let s : some t ≡ some r = sym f ∙ moved in
    let u : t ≡ r = cc in target-colony colony c t q (ap (λ (x : Robot). x.colony) u ∙ p)

-- An empty cargo slot holds no component.
pub empty_slot : (v : ℕ) → v ≢ variant_none → one_of v variant_none ≡ 0
empty_slot v real = ground arith

drop_at-robots :
    {G : Type 0} (w : World G) (c : Coord) (x i : ℕ) {r : Robot}
    → get_elem? w.robots i ≡ some r
    → get_elem? (drop_at w c x).robots i ≡ some r
unfolding drop_at allocate_id
drop_at-robots w c x i e = e

module _ {G : Type 0} (v : ℕ) where
  step_to-census :
      (w : World G) (i : ℕ) (r r0 : Robot) (c : Coord)
      → get_elem? w.robots i ≡ some r0
      → held v r ≡ held v r0
      → census v (step_to w i r c).0 ≡ census v w
  unfolding step_to
  step_to-census w i r r0 c e h = elim (Bool-cases (passable w c (locomotion_of r.blueprint))) [
    | inl p ↦
        rw (p, step_to)
          (omega (arith, census-put v w i r0 (record r { coord = c; path_blocked = false }) e))
    | inr p ↦
        rw (p, step_to) (omega (arith, census-put v w i r0 (record r { path_blocked = true }) e))
  ]

  follow-census :
      (w : World G) (i : ℕ) (r r0 : Robot) (dest next : Coord)
      → get_elem? w.robots i ≡ some r0
      → held v r ≡ held v r0
      → census v (follow w i r dest next).0 ≡ census v w
  unfolding follow
  follow-census w i r r0 dest next e h =
      let turned = record r { heading = heading_to r.coord next } in
      census-update v (step_to w i turned next).0 i
        (λ (s : Robot). record s { target_reached = eq_coord s.coord dest }) (λ a. refl)
      ∙ step_to-census w i turned r0 next e h

  along-census :
      (w : World G) (i : ℕ) (r : Robot) (dest : Coord) (p : List Coord)
      → get_elem? w.robots i ≡ some r
      → census v (along w i r dest p).0 ≡ census v w
  unfolding along
  along-census w i r dest [] e = omega (
    arith,
    census-put v w i r
        (record r { target_reached = false; target_unreachable = true; path_blocked = true }) e,
  )
  along-census w i r dest (next ∷ rest) e =
      follow-census w i (record r { target_unreachable = false; target_reached = false }) r dest
        next e refl

  move_to-census :
      (w : World G) (i : ℕ) (r : Robot) (dest : Coord)
      → get_elem? w.robots i ≡ some r
      → census v (move_to w i r dest).0 ≡ census v w
  unfolding move_to
  move_to-census w i r dest e = elim (Bool-cases (eq_coord r.coord dest)) [
    | inl q ↦
        rw (q, move_to)
          (omega (
            arith,
            census-put v w i r (record r { target_unreachable = false; target_reached = true }) e,
          ))
    | inr q ↦
        rw (q, move_to)
          (along-census w i r dest (path w (locomotion_of r.blueprint) r.coord dest) e)
  ]

  pub update_stats-census :
      (w : World G) (colony : ℕ) (f : Stats → Stats)
      → census v (update_stats w colony f) ≡ census v w
  unfolding update_stats
  update_stats-census w colony f = elim (Option-cases (base_of w colony)) [
    | inl e ↦ rw (e, update_stats)
    | inr (k, e) ↦
        rw (e, update_stats)
          (omega (
            arith,
            sum_of-modify_same (in_base v) (λ (b : Base). record b { stats = f b.stats })
                (λ b. refl) w.bases k.0,
          ))
  ]

  hit-census :
      (w : World G) (r : Robot) (j : ℕ) (t : Robot) (damage : ℕ)
      → get_elem? w.robots j ≡ some t
      → census v (hit w r j t damage) ≡ census v w
  unfolding hit credit_kill
  hit-census w r j t damage e =
      let t' = record t { health = t.health - damage } in
      let credit = λ (s : Stats). record s { kills = s.kills + 1 } in
      let q = census-put v w j t t' e in
      elim (Bool-cases (is_destroyed t')) [
        | inl d ↦
            rw (d, hit, credit_kill)
              (census-emit v (update_stats (put w j t') r.colony credit) (loss_event r t')
                ∙ update_stats-census (put w j t') r.colony credit
                ∙ omega (arith, q))
        | inr d ↦ rw (d, hit, credit_kill) (omega (arith, q))
      ]

  module _ (real : v ≢ variant_none) where
    take_component-census :
        (w : World G) (i : ℕ) (r : Robot) (l : Option (ℕ × LooseComponent))
        → get_elem? w.robots i ≡ some r
        → r.cargo ≡ variant_none
        → Picks r.coord w.loose l
        → census v (take_component w i r l) ≡ census v w
    unfolding take_component
    take_component-census w i r none e c p = refl
    take_component-census w i r (some (j, l)) e c p = omega (
      arith,
      census-put v w i r (record r { cargo = l.variant }) e,
      sum_of-remove_at (λ (l : LooseComponent). one_of v l.variant) w.loose j l p.found,
      ap (one_of v) c,
      empty_slot v real,
    )

    pick_up-census :
        (w : World G) (i : ℕ) (r : Robot)
        → get_elem? w.robots i ≡ some r
        → census v (pick_up w i r) ≡ census v w
    unfolding pick_up
    pick_up-census w i r e =
        elim (Bool-cases
          (not (has r.blueprint kind_manipulator) || not (r.cargo == variant_none))) [
            | inl q ↦ rw (q, pick_up) refl
            | inr q ↦
                rw (q, pick_up)
                  (take_component-census w i r (component_in_reach w r) e (ground arith)
                    (component_in_reach-Picks w r))
          ]

    bank-census :
        (w : World G) (i : ℕ) (r : Robot) (b : Option (ℕ × Base))
        → get_elem? w.robots i ≡ some r
        → base_of w r.colony ≡ b
        → census v (bank w i r b) ≡ census v w
    unfolding bank
    bank-census w i r none e f = refl
    bank-census w i r (some (k, b)) e f =
        elim (Bool-cases (ltb interact_range (chebyshev r.coord b.coord))) [
          | inl q ↦ rw (q, bank) refl
          | inr q ↦
              let w1 = record w { bases = modify w.bases k (receive r.cargo) } in
              let w2 = put w1 i (record r { cargo = variant_none }) in
              rw (q, bank)
                (census-emit v w2 (deposit_event r)
                  ∙ omega (
                    arith,
                    census-put v w1 i r (record r { cargo = variant_none }) e,
                    sum_of-modify (in_base v) (receive r.cargo) w.bases k b
                        (base_of-found w r.colony f).0,
                    stock-increment b.inventory v r.cargo,
                    empty_slot v real,
                  ))
        ]

    deposit-census :
        (w : World G) (i : ℕ) (r : Robot)
        → get_elem? w.robots i ≡ some r
        → census v (deposit w i r) ≡ census v w
    unfolding deposit
    deposit-census w i r e =
        elim (Bool-cases (not (has r.blueprint kind_manipulator) || r.cargo == variant_none)) [
          | inl q ↦ rw (q, deposit) refl
          | inr q ↦ rw (q, deposit) (bank-census w i r (base_of w r.colony) e refl)
        ]

    drop-census :
        (w : World G) (i : ℕ) (r : Robot)
        → get_elem? w.robots i ≡ some r
        → census v (drop w i r) ≡ census v w
    unfolding drop
    drop-census w i r e = elim (Bool-cases (r.cargo == variant_none)) [
      | inl q ↦ rw (q, drop) refl
      | inr q ↦
          rw (q, drop)
            (omega (
              arith,
              census-put v (drop_at w r.coord r.cargo) i r (record r { cargo = variant_none })
                  (drop_at-robots w r.coord r.cargo i e),
              census-drop_at v w r.coord r.cargo,
              empty_slot v real,
            ))
    ]

  module _ ⦃g : Rng G⦄ where
    fire-census :
        (w : World G) (i : ℕ) (r : Robot) (j : ℕ) (t : Robot) (slot : ℕ) (spec : WeaponSpec)
        → get_elem? w.robots i ≡ some r
        → get_elem? w.robots j ≡ some t
        → i ≢ j
        → census v (fire w i r j t slot spec) ≡ census v w
    unfolding fire
    fire-census w i r j t slot spec e f ne =
        let armed = record r { weapon_cooldown = set r.weapon_cooldown slot spec.cooldown } in
        let w2 = record w { robots = set w.robots i armed; rng = (g.intn w.rng 100).1 } in
        let q : census v w2 ≡ census v w = omega (arith, census-put v w i r armed e) in
        elim (Bool-cases (ltb (g.intn w.rng 100).0 spec.accuracy)) [
          | inl l ↦
              rw (l, fire)
                (hit-census w2 r j t spec.damage (get_elem?-set_ne w.robots armed ne ∙ f) ∙ q)
          | inr l ↦ rw (l, fire) q
        ]

    shoot-census :
        (w : World G) (i : ℕ) (r : Robot) (j : ℕ) (t : Robot) (a : Option (ℕ × WeaponSpec))
        → get_elem? w.robots i ≡ some r
        → get_elem? w.robots j ≡ some t
        → i ≢ j
        → census v (shoot w i r j t a).0 ≡ census v w
    unfolding shoot
    shoot-census w i r j t none e f ne = refl
    shoot-census w i r j t (some (slot, spec)) e f ne = fire-census w i r j t slot spec e f ne

    aim-census :
        (w : World G) (i : ℕ) (r : Robot) (c : Coord) (t : Option (ℕ × Robot))
        → get_elem? w.robots i ≡ some r
        → enemy_at w r.colony c ≡ t
        → census v (aim w i r c t).0 ≡ census v w
    unfolding aim
    aim-census w i r c none e f = refl
    aim-census w i r c (some (j, t)) e f =
        let found = enemy_at-found w r.colony c f in
        shoot-census w i r j t (ready_weapon r (chebyshev r.coord c)) e found.0
          (target-ne w.robots r.colony c i j r t e found.0 refl found.1)

    attack-census :
        (w : World G) (i : ℕ) (r : Robot) (c : Coord)
        → get_elem? w.robots i ≡ some r
        → census v (attack w i r c).0 ≡ census v w
    unfolding attack
    attack-census w i r c e = aim-census w i r c (enemy_at w r.colony c) e refl

    module _ (real : v ≢ variant_none) where
      turned-census :
          (w : World G) (i : ℕ) (r : Robot) (h : ℕ)
          → get_elem? w.robots i ≡ some r
          → census v (put w i (record r { heading = h })) ≡ census v w
      turned-census w i r h e = omega (arith, census-put v w i r (record r { heading = h }) e)

      primary-census :
          (w : World G) (i : ℕ) (r : Robot) (kind : ActionKind) (a : Action)
          → a.kind ≡ kind
          → get_elem? w.robots i ≡ some r
          → census v (primary w i r a).0 ≡ census v w
      unfolding primary
      primary-census w i r act_none a k e = rw (k, primary) refl
      primary-census w i r act_stop a k e = rw (k, primary) refl
      primary-census w i r act_move_forward a k e =
          rw (k, primary) (step_to-census w i r r (add r.coord (delta r.heading)) e refl)
      primary-census w i r act_turn_left a k e =
          rw (k, primary) (turned-census w i r (turn r.heading (negsuc 0)) e)
      primary-census w i r act_turn_right a k e =
          rw (k, primary) (turned-census w i r (turn r.heading (pos 1)) e)
      primary-census w i r act_turn_random a k e =
          rw (k, primary) (turned-census w i r (g.intn w.rng heading_count).0 e)
      primary-census w i r act_move_to a k e = rw (k, primary) (move_to-census w i r a.coord e)
      primary-census w i r act_attack a k e = rw (k, primary) (attack-census w i r a.coord e)
      primary-census w i r act_pick_up a k e = rw (k, primary) (pick_up-census real w i r e)
      primary-census w i r act_deposit a k e = rw (k, primary) (deposit-census real w i r e)
      primary-census w i r act_drop a k e = rw (k, primary) (drop-census real w i r e)

      -- Whatever the controller decides, the action of a robot of the world moves components and makes
      -- or loses none: the census of every variant but the empty one is the same before and after.
      pub apply-census :
          (w : World G) (i : ℕ) (r : Robot) (a : Action)
          → get_elem? w.robots i ≡ some r
          → census v (apply w i r a).0 ≡ census v w
      unfolding apply
      apply-census w i r a e =
          let r' = record r { memory = write_all r.memory a.memory } in
          let w1 = put w i r' in
          let done = primary w1 i r' a in
          census-update v done.0 i (λ (s : Robot). record s { cooldown = max 1 done.1 - 1 })
            (λ b. refl)
          ∙ primary-census w1 i r' a.kind a refl (get_elem?-set_found w.robots i r' e)
          ∙ omega (arith, census-put v w i r r' e)
