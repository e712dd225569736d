-- ===== src/Sim/Safety/Step.antt =====
-- The sweep, the production and the whole tick keep the world safe.
use robocolony.Common.{ℕ, zero, suc, ◌+◌, ◌-◌, refl, Bool, true, false, not, arith, inl, inr}
use robocolony.Common.{
  List, [], ◌∷◌, ◌++◌, Option, none, some, length, All-set, All-modify, All-append, All-keep,
}
use robocolony.Common.{All-get, Bool-cases, Option-cases, get_elem?, length-map, leb, ltb, ◌==◌}
use robocolony.Sim.Grid.{heading_count}
use robocolony.Sim.Blueprint.{Blueprint, locomotion_of}
use robocolony.Sim.Catalogue.{variant_none, salvage_drop_percent}
use robocolony.Sim.World.State.{World, Robot, Base, RobotView, Action, Signal, Rng}
use robocolony.Sim.World.Access.{drop_at, is_destroyed, allocate_id, ended, has_robots}
use robocolony.Sim.Actions.Move.{recall_action}
use robocolony.Sim.Perception.{view}
use robocolony.Sim.Production.{
  spawn, advance_build, launch, start_build, produce, buildable, put_base, idle_event, new_robot,
}
use robocolony.Sim.Tick.{
  Control, after_control, controlled, reload_one, Controllers, reload, roll_components, drop_one,
  drop_cargo, salvage, sweep_one, sweep_loop, sweep_destroyed,
}
use robocolony.Sim.Tick.{consult, choose, act, turn_of, robots_loop, count_active, bases_loop, step}
use robocolony.Sim.World.Access.{put, next_u64}
use robocolony.Common.{if◌then◌else◌, if_false, ap, All-map, ◌≡◌, subst, sym, ◌∙◌}
use robocolony.Sim.World.Access.{passable, inside, at, index}
use robocolony.Sim.Safety.{
  IsSafe, RobotOk, BaseOk, Holds, reframe, bases-Holds, robots-Holds, put-Holds, emit-Holds,
  drop_at-Holds, update_stats-Holds,
}
use robocolony.Sim.Safety.Actions.{apply-Holds}

module _ {G : Type 0} ⦃g : Rng G⦄ {o : World G} where
  roll_components-Holds :
      (w : World G) (r : Robot) (n : ℕ) (vs : List ℕ)
      → Holds o w
      → Holds o (roll_components w r n vs).0
  unfolding roll_components
  roll_components-Holds w r n [] s = s
  roll_components-Holds w r n (v ∷ vs) s =
      let w1 = record w { rng = (g.intn w.rng 100).1 } in
      let s1 : Holds o w1 = reframe refl refl refl refl refl refl refl s in
      elim (Bool-cases (leb salvage_drop_percent (g.intn w.rng 100).0)) [
        | inl e ↦ rw (e, roll_components) (roll_components-Holds w1 r n vs s1)
        | inr e ↦
            rw (e, roll_components)
              (roll_components-Holds (drop_at w1 r.coord v) r (n + 1) vs
                (drop_at-Holds r.coord v s1))
      ]

  drop_cargo-Holds :
      (w : World G) (i : ℕ) (r : Robot) → Holds o w → RobotOk o r → Holds o (drop_cargo w i r)
  unfolding drop_cargo
  drop_cargo-Holds w i r s k = elim (Bool-cases (r.cargo == variant_none)) [
    | inl e ↦ rw (e, drop_cargo) s
    | inr e ↦ rw (e, drop_cargo) (put-Holds i (drop_at-Holds r.coord r.cargo s) (ground arith))
  ]

  drop_one-Holds : (w : World G) (r : Robot) → Holds o w → Holds o (drop_one w r)
  unfolding drop_one
  drop_one-Holds w r s = drop_at-Holds _ _ (reframe refl refl refl refl refl refl refl s)

  salvage-Holds :
      (w : World G) (i : ℕ) (r : Robot) → Holds o w → RobotOk o r → Holds o (salvage w i r)
  unfolding salvage
  salvage-Holds w i r s k =
      let rolled = roll_components (drop_cargo w i r) r 0 r.blueprint.components in
      let s1 =
        roll_components-Holds (drop_cargo w i r) r 0 r.blueprint.components
          (drop_cargo-Holds w i r s k) in
      elim (Bool-cases (rolled.1 == 0)) [
        | inl e ↦ elim (Bool-cases (length r.blueprint.components == 0)) [
          | inl e' ↦ rw (e, e', salvage) s1
          | inr e' ↦ rw (e, e', salvage) (drop_one-Holds rolled.0 r s1)
        ]
        | inr e ↦ rw (e, salvage) s1
      ]

  spawn-Holds :
      (w : World G) (b : Base) (bp : Blueprint) → Holds o w → BaseOk o b → Holds o (spawn w b bp)
  unfolding spawn allocate_id
  spawn-Holds w b bp s k =
      let heading = (g.intn w.rng heading_count).0 in
      let r = new_robot (w.next_id + 1) heading b bp in
      let ok : RobotOk o r = record {
        stands = k (locomotion_of bp);
        facing = g.intn-lt w.rng heading_count (omega arith);
        healthy = omega arith;
        registers = refl;
        slots = refl;
      } in
      emit-Holds _ (
        reframe refl refl refl refl refl refl refl (
          robots-Holds {w = w} (w.robots ++ r ∷ [])
            (All-append (RobotOk o) w.robots (r ∷ []) s.robots (ok, tt)) s))

  put_base-Holds :
      {w : World G} (k : ℕ) (b : Base) → Holds o w → BaseOk o b → Holds o (put_base w k b)
  put_base-Holds {w} k b s h = bases-Holds _ (All-set (BaseOk o) w.bases k b s.bases h) s

  advance_build-Holds :
      (w : World G) (k : ℕ) (b : Base) → Holds o w → BaseOk o b → Holds o (advance_build w k b)
  unfolding advance_build
  advance_build-Holds w k b s h = elim (Bool-cases (b.build.ticks - 1 == 0)) [
    | inl e ↦ rw (e, advance_build) (spawn-Holds _ b b.build.blueprint (put_base-Holds k _ s h) h)
    | inr e ↦ rw (e, advance_build) (put_base-Holds k _ s h)
  ]

  launch-Holds :
      (w : World G) (k : ℕ) (b : Base) (bps : List Blueprint)
      → Holds o w
      → BaseOk o b
      → Holds o (launch w k b bps)
  unfolding launch
  launch-Holds w k b [] s h = elim (Bool-cases b.stalled) [
    | inl e ↦ rw (e, launch) s
    | inr e ↦ rw (e, launch) (emit-Holds (idle_event b) (put_base-Holds k _ s h))
  ]
  launch-Holds w k b (first ∷ rest) s h =
      put_base-Holds k _ (reframe {w = w} refl refl refl refl refl refl refl s) h

  produce-Holds :
      (w : World G) (k : ℕ) (b : Base) → Holds o w → BaseOk o b → Holds o (produce w k b)
  unfolding produce start_build
  produce-Holds w k b s h = elim (Bool-cases (ltb 0 b.build.ticks)) [
    | inl e ↦ rw (e, produce) (advance_build-Holds w k b s h)
    | inr e ↦ rw (e, produce) (launch-Holds w k b (buildable b) s h)
  ]

  module _ {C : Type 0} (ctl : Controllers C) where
    sweep_one-Holds :
        (w : World G) (c : C) (i : ℕ) (r : Robot)
        → Holds o w
        → RobotOk o r
        → Holds o (sweep_one ctl w c i r).0
    unfolding sweep_one
    sweep_one-Holds w c i r s k = elim (Bool-cases (not (is_destroyed r))) [
      | inl e ↦ rw (e, sweep_one) s
      | inr e ↦ rw (e, sweep_one) (update_stats-Holds r.colony _ (salvage-Holds w i r s k))
    ]

    sweep_loop-Holds :
        (n : ℕ) (w : World G) (c : C) (i : ℕ) → Holds o w → Holds o (sweep_loop ctl n w c i).0
    unfolding sweep_loop
    sweep_loop-Holds zero w c i s = s
    sweep_loop-Holds (suc n) w c i s = elim (Option-cases (get_elem? w.robots i)) [
      | inl e ↦ rw (e, sweep_loop) s
      | inr (r, e) ↦
          let done = sweep_one ctl w c i r in
          rw (e, sweep_loop)
            (sweep_loop-Holds n done.0 done.1 (suc i)
              (sweep_one-Holds w c i r s (All-get (RobotOk o) w.robots i e s.robots)))
    ]

    after_control-RobotOk : (r : Robot) (b : Bool) → RobotOk o r → RobotOk o (after_control r b)
    unfolding after_control
    after_control-RobotOk r true k = record {
      stands = k.stands;
      facing = k.facing;
      healthy = k.healthy;
      registers = refl;
      slots = k.slots;
    }
    after_control-RobotOk r false k = k

    consult-Holds :
        (w : World G) (c : C) (inbox : List Signal) (i : ℕ) (r : Robot)
        (d : Option (RobotView → Action × C))
        → Holds o w
        → RobotOk o r
        → Holds o (consult ctl w c inbox i r d).0
    unfolding consult
    consult-Holds w c inbox i r none s k = s
    consult-Holds w c inbox i r (some decide) s k = apply-Holds i r (decide (view w r inbox)).0 s k

    controlled-Holds :
        (w : World G) (inbox : List Signal) (i : ℕ) (r : Robot) (found : Control C)
        → Holds o w
        → RobotOk o r
        → Holds o (controlled ctl w inbox i r found).0
    unfolding controlled
    controlled-Holds w inbox i r found s k =
        let ok = after_control-RobotOk r found.wipes k in
        consult-Holds (put w i (after_control r found.wipes)) found.layer inbox i
          (after_control r found.wipes) found.decide (put-Holds i s ok) ok

    choose-Holds :
        (w : World G) (c : C) (inbox : List Signal) (i : ℕ) (r : Robot) (b : Bool)
        → Holds o w
        → RobotOk o r
        → Holds o (choose ctl w c inbox i r b).0
    unfolding choose
    choose-Holds w c inbox i r true s k = apply-Holds i r (recall_action w r) s k
    choose-Holds w c inbox i r false s k = controlled-Holds w inbox i r (ctl.control c r) s k

    act-Holds :
        (w : World G) (c : C) (inbox : List Signal) (i : ℕ) (r : Robot)
        → Holds o w
        → RobotOk o r
        → Holds o (act ctl w c inbox i r).0
    unfolding act
    act-Holds w c inbox i r s k = elim (Bool-cases (ltb 0 r.cooldown)) [
      | inl e ↦ rw (e, act) (put-Holds i s (ground arith))
      | inr e ↦ rw (e, act) (choose-Holds w c inbox i r r.recalled s k)
    ]

    turn_of-Holds :
        (w : World G) (c : C) (inbox : List Signal) (i : ℕ) (r : Robot)
        → Holds o w
        → RobotOk o r
        → Holds o (turn_of ctl w c inbox i r).0
    unfolding turn_of
    turn_of-Holds w c inbox i r s k =
        let ok : RobotOk o (reload r) = ground (arith, length-map r.weapon_cooldown reload_one) in
        elim (Bool-cases (is_destroyed r)) [
          | inl e ↦ rw (e, turn_of) s
          | inr e ↦ rw (e, turn_of) (act-Holds _ c inbox i (reload r) (put-Holds i s ok) ok)
        ]

    robots_loop-Holds :
        (n : ℕ) (w : World G) (c : C) (inbox : List Signal) (i : ℕ) (next : List Signal)
        → Holds o w
        → Holds o (robots_loop ctl n w c inbox i next).0
    unfolding robots_loop
    robots_loop-Holds zero w c inbox i next s = s
    robots_loop-Holds (suc n) w c inbox i next s = elim (Option-cases (get_elem? w.robots i)) [
      | inl e ↦ rw (e, robots_loop) s
      | inr (r, e) ↦
          let done = turn_of ctl w c inbox i r in
          rw (e, robots_loop)
            (robots_loop-Holds n done.0 done.1 inbox (suc i) (next ++ done.2)
              (turn_of-Holds w c inbox i r s (All-get (RobotOk o) w.robots i e s.robots)))
    ]

    count_active-Holds :
        (w : World G) (k : ℕ) (b : Base) → Holds o w → Holds o (count_active ctl w k b)
    unfolding count_active
    count_active-Holds w k b s = elim (Bool-cases (has_robots w b.colony)) [
      | inl e ↦
          rw (e, count_active)
            (bases-Holds _ (All-modify (BaseOk o) _ (λ a h. h) w.bases k s.bases) s)
      | inr e ↦ rw (e, count_active) s
    ]

    bases_loop-Holds : (n : ℕ) (w : World G) (k : ℕ) → Holds o w → Holds o (bases_loop ctl n w k)
    unfolding bases_loop
    bases_loop-Holds zero w k s = s
    bases_loop-Holds (suc n) w k s = elim (Option-cases (get_elem? w.bases k)) [
      | inl e ↦ rw (e, bases_loop) s
      | inr (b, e) ↦
          let made = produce-Holds w k b s (All-get (BaseOk o) w.bases k e s.bases) in
          rw (e, bases_loop)
            (bases_loop-Holds n _ (suc k) (count_active-Holds (produce w k b) k b made))
    ]

    -- The three phases of a tick that is not past the end.
    phases-Holds :
        (w : World G) (c : C)
        → ended w ≡ false
        → Holds o w
        → (w3 : World G) × Holds o w3
          × ((step ctl w c).0 ≡ record w3 {
            signals =
                (robots_loop ctl (length w.robots) (record w { events = [] }) c w.signals 0 []).2;
            tick = next_u64 w3.tick;
          })
    unfolding step sweep_destroyed ended
    phases-Holds w c e s =
        let w0 = record w { events = [] } in
        let s0 : Holds o w0 = reframe refl refl refl refl refl refl refl s in
        let acted = robots_loop ctl (length w.robots) w0 c w.signals 0 [] in
        let s1 = robots_loop-Holds (length w.robots) w0 c w.signals 0 [] s0 in
        let s2 = sweep_loop-Holds (length acted.0.robots) acted.0 acted.1 0 s1 in
        let s3 = robots-Holds _ (All-keep (RobotOk o) (λ r. not (is_destroyed r)) _ s2.robots) s2 in
        (
          bases_loop ctl (length (sweep_destroyed ctl acted.0 acted.1).0.bases)
              (sweep_destroyed ctl acted.0 acted.1).0 0,
          bases_loop-Holds _ _ 0 s3,
          ap (λ (v : World G × C). v.0) (if_false _ _ e),
        )

-- The world `o` with the clock of `w`.
abbrev clocked : {G : Type 0} → World G → World G → World G
clocked o w = record o { tick = w.tick; duration = w.duration }

module _ {G : Type 0} (o w : World G) where
  clocked-RobotOk : (r : Robot) → RobotOk o r → RobotOk (clocked o w) r
  unfolding passable inside at index
  clocked-RobotOk r k = record {
    stands = k.stands;
    facing = k.facing;
    healthy = k.healthy;
    registers = k.registers;
    slots = k.slots;
  }

  unclocked-RobotOk : (r : Robot) → RobotOk (clocked o w) r → RobotOk o r
  unfolding passable inside at index
  unclocked-RobotOk r k = record {
    stands = k.stands;
    facing = k.facing;
    healthy = k.healthy;
    registers = k.registers;
    slots = k.slots;
  }

  IsSafe→Holds : IsSafe o w → Holds (clocked o w) w
  unfolding passable inside at index
  IsSafe→Holds s = record {
    width = s.width;
    height = s.height;
    cells = s.cells;
    robots = All-map clocked-RobotOk w.robots s.robots;
    bases = All-map (λ b h. h) w.bases s.bases;
    tick = refl;
    duration = refl;
  }

  Holds→IsSafe : (w' : World G) → Holds (clocked o w) w' → IsSafe o w'
  unfolding passable inside at index
  Holds→IsSafe w' s = record {
    width = s.width;
    height = s.height;
    cells = s.cells;
    robots = All-map unclocked-RobotOk w'.robots s.robots;
    bases = All-map (λ b h. h) w'.bases s.bases;
  }

  reclocked :
      (w' : World G) (s : List Signal) (t : ℕ)
      → IsSafe o w'
      → IsSafe o (record w' { signals = s; tick = t })
  unfolding passable inside at index
  reclocked w' s t h = record {
    width = h.width;
    height = h.height;
    cells = h.cells;
    robots = h.robots;
    bases = h.bases;
  }

module _ {G : Type 0} ⦃g : Rng G⦄ {C : Type 0} (ctl : Controllers C) where
  step-ended : (w : World G) (c : C) → ended w ≡ true → (step ctl w c).0 ≡ record w { events = [] }
  unfolding step ended
  step-ended w c e = rw e refl

module _ {G : Type 0} ⦃g : Rng G⦄ {o : World G} {C : Type 0} (ctl : Controllers C) where
  -- A tick of a safe world gives a safe world with the same map, whatever the controllers decide
  -- and the rolls come to. In a safe world every robot stands on a cell of the map that its
  -- locomotion may enter, faces one of the eight headings, and has at most its full health, three
  -- registers and two weapon slots; and every base stands on a cell open to all.
  pub step-IsSafe : (w : World G) (c : C) → IsSafe o w → IsSafe o (step ctl w c).0
  step-IsSafe w c s = elim (Bool-cases (ended w)) [
    | inl e ↦ subst (IsSafe o) (sym (step-ended ctl w c e)) (record {
      width = s.width;
      height = s.height;
      cells = s.cells;
      robots = s.robots;
      bases = s.bases;
    })
    | inr e ↦
        let done = phases-Holds ctl w c e (IsSafe→Holds o w s) in
        subst (IsSafe o) (sym done.2) (reclocked o w done.0 _ _ (Holds→IsSafe o w done.0 done.1))
  ]

  -- A tick of a safe world counts the clock up by one, modulo 2^64, unless the duration is over; it
  -- does not change the duration.
  pub step_clock :
      (w : World G) (c : C)
      → IsSafe o w
      → ((step ctl w c).0.tick ≡ (if ended w then w.tick else next_u64 w.tick))
        × ((step ctl w c).0.duration ≡ w.duration)
  step_clock w c s = elim (Bool-cases (ended w)) [
    | inl e ↦ let q = step-ended ctl w c e in rw e (ap (λ v. v.tick) q, ap (λ v. v.duration) q)
    | inr e ↦
        let done = phases-Holds ctl w c e (IsSafe→Holds o w s) in
        rw e (
          ap (λ v. v.tick) done.2 ∙ ap next_u64 done.1.tick,
          ap (λ v. v.duration) done.2 ∙ done.1.duration,
        )
  ]
