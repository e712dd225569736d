-- ===== src/Sim/Conservation/Step.antt =====
-- The whole tick makes no component.
use robocolony.Common.{
  ℕ, zero, suc, ◌-◌, ◌≤◌, ◌≡◌, ◌≢◌, refl, ◌∙◌, Bool, true, false, arith, inl, inr,
}
use robocolony.Common.{
  List, [], ◌++◌, Option, none, some, length, sum_of-modify_same, get_elem?-set_found,
}
use robocolony.Common.{Bool-cases, Option-cases, get_elem?, ltb}
use robocolony.Sim.Catalogue.{variant_none}
use robocolony.Sim.World.State.{World, Robot, Base, RobotView, Action, Signal, Rng}
use robocolony.Sim.World.Access.{put, is_destroyed, ended, has_robots, next_u64}
use robocolony.Sim.Actions.Move.{recall_action}
use robocolony.Sim.Perception.{view}
use robocolony.Sim.Production.{produce}
use robocolony.Sim.Tick.{Control, after_control, controlled, Controllers, reload, sweep_destroyed}
use robocolony.Sim.Tick.{consult, choose, act, turn_of, robots_loop, count_active, bases_loop, step}
use robocolony.Sim.Conservation.{held, in_base, census, census-put}
use robocolony.Sim.Conservation.Actions.{apply-census}
use robocolony.Sim.Conservation.Production.{produce-census}
use robocolony.Sim.Conservation.Sweep.{sweep_destroyed-census}

after_control-held : (v : ℕ) (r : Robot) (b : Bool) → held v (after_control r b) ≡ held v r
unfolding after_control
after_control-held v r true = refl
after_control-held v r false = refl

module _ {G : Type 0} ⦃g : Rng G⦄ (v : ℕ) (real : v ≢ variant_none) {C : Type 0}
    (ctl : Controllers C) where
  consult-census :
      (w : World G) (c : C) (inbox : List Signal) (i : ℕ) (r : Robot)
      (d : Option (RobotView → Action × C))
      → get_elem? w.robots i ≡ some r
      → census v (consult ctl w c inbox i r d).0 ≡ census v w
  unfolding consult
  consult-census w c inbox i r none e = refl
  consult-census w c inbox i r (some decide) e =
      apply-census v real w i r (decide (view w r inbox)).0 e

  controlled-census :
      (w : World G) (inbox : List Signal) (i : ℕ) (r : Robot) (found : Control C)
      → get_elem? w.robots i ≡ some r
      → census v (controlled ctl w inbox i r found).0 ≡ census v w
  unfolding controlled
  controlled-census w inbox i r found e =
      let r' = after_control r found.wipes in
      consult-census (put w i r') found.layer inbox i r' found.decide
        (get_elem?-set_found w.robots i r' e)
      ∙ omega (arith, census-put v w i r r' e, after_control-held v r found.wipes)

  choose-census :
      (w : World G) (c : C) (inbox : List Signal) (i : ℕ) (r : Robot) (b : Bool)
      → get_elem? w.robots i ≡ some r
      → census v (choose ctl w c inbox i r b).0 ≡ census v w
  unfolding choose
  choose-census w c inbox i r true e = apply-census v real w i r (recall_action w r) e
  choose-census w c inbox i r false e = controlled-census w inbox i r (ctl.control c r) e

  act-census :
      (w : World G) (c : C) (inbox : List Signal) (i : ℕ) (r : Robot)
      → get_elem? w.robots i ≡ some r
      → census v (act ctl w c inbox i r).0 ≡ census v w
  unfolding act
  act-census w c inbox i r e = elim (Bool-cases (ltb 0 r.cooldown)) [
    | inl l ↦
        rw (l, act) (omega (arith, census-put v w i r (record r { cooldown = r.cooldown - 1 }) e))
    | inr l ↦ rw (l, act) (choose-census w c inbox i r r.recalled e)
  ]

  turn_of-census :
      (w : World G) (c : C) (inbox : List Signal) (i : ℕ) (r : Robot)
      → get_elem? w.robots i ≡ some r
      → census v (turn_of ctl w c inbox i r).0 ≡ census v w
  unfolding turn_of
  turn_of-census w c inbox i r e = elim (Bool-cases (is_destroyed r)) [
    | inl l ↦ rw (l, turn_of) refl
    | inr l ↦
        let armed = get_elem?-set_found w.robots i (reload r) e in
        rw (l, turn_of)
          (act-census (put w i (reload r)) c inbox i (reload r) armed
            ∙ omega (arith, census-put v w i r (reload r) e))
  ]

  robots_loop-census :
      (n : ℕ) (w : World G) (c : C) (inbox : List Signal) (i : ℕ) (next : List Signal)
      → census v (robots_loop ctl n w c inbox i next).0 ≡ census v w
  unfolding robots_loop
  robots_loop-census zero w c inbox i next = refl
  robots_loop-census (suc n) w c inbox i next = elim (Option-cases (get_elem? w.robots i)) [
    | inl e ↦ rw (e, robots_loop) refl
    | inr (r, e) ↦
        let done = turn_of ctl w c inbox i r in
        rw (e, robots_loop)
          (robots_loop-census n done.0 done.1 inbox (suc i) (next ++ done.2)
            ∙ turn_of-census w c inbox i r e)
  ]

  count_active-census :
      (w : World G) (k : ℕ) (b : Base) → census v (count_active ctl w k b) ≡ census v w
  unfolding count_active
  count_active-census w k b = elim (Bool-cases (has_robots w b.colony)) [
    | inl e ↦
        let count = λ (b' : Base). record b' {
          stats = let s = b'.stats in record s { ticks_active = next_u64 s.ticks_active };
        } in
        rw (e, count_active)
          (omega (arith, sum_of-modify_same (in_base v) count (λ b. refl) w.bases k))
    | inr e ↦ rw (e, count_active) refl
  ]

  bases_loop-census : (n : ℕ) (w : World G) (k : ℕ) → census v (bases_loop ctl n w k) ≡ census v w
  unfolding bases_loop
  bases_loop-census zero w k = refl
  bases_loop-census (suc n) w k = elim (Option-cases (get_elem? w.bases k)) [
    | inl e ↦ rw (e, bases_loop) refl
    | inr (b, e) ↦
        rw (e, bases_loop)
          (bases_loop-census n (count_active ctl (produce w k b) k b) (suc k)
            ∙ count_active-census (produce w k b) k b
            ∙ produce-census v real w k b e)
  ]

  -- A tick makes no component out of nothing: for every variant but the empty one, the number on
  -- the ground, in the robots, in the bases and under assembly there is after a tick at most what
  -- it was before, whatever the controllers decide and the rolls come to.
  pub step-census : (w : World G) (c : C) → census v (step ctl w c).0 ≤ census v w
  unfolding step
  step-census w c =
      let w0 = record w { events = [] } in
      let acted = robots_loop ctl (length w.robots) w0 c w.signals 0 [] in
      let s1 = robots_loop-census (length w.robots) w0 c w.signals 0 [] in
      let swept = sweep_destroyed ctl acted.0 acted.1 in
      let s2 = sweep_destroyed-census v real ctl acted.0 acted.1 in
      let s3 = bases_loop-census (length swept.0.bases) swept.0 0 in
      elim (Bool-cases (ended w0)) [
        | inl e ↦ rw (e, step) (omega arith)
        | inr e ↦ rw (e, step) (omega (arith, s1, s2, s3))
      ]
