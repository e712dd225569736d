-- ===== src/Sim/Tick.antt =====
-- The tick: `Ended`, `salvage` and `sweepDestroyed` of internal/sim/match.go, and `Step` of
-- internal/sim/tick.go. `Control` and `OnDestroy` are functions of the world's owner: they enter
-- as a parameter, with the state `C` of the layer that they belong to.
use robocolony.Common.{
  Bool, true, false, ℕ, zero, suc, ◌+◌, ◌-◌, not, ltb, leb, ◌==◌, if◌then◌else◌,
}
use robocolony.Common.{
  List, [], ◌∷◌, ◌++◌, Option, none, some, map, get_elem?, get_or, length, keep, modify, replicate,
}
use robocolony.Sim.Catalogue.{variant_none, salvage_drop_percent}
use robocolony.Sim.World.State.{World, Robot, RobotView, Action, Signal, Base, Stats, Rng}
use robocolony.Sim.World.Access.{
  mem_points, put, drop_at, update_stats, is_destroyed, ended, has_robots, next_u64,
}
use robocolony.Sim.Perception.{view}
use robocolony.Sim.Actions.Move.{recall_action}
use robocolony.Sim.Actions.Apply.{apply, unset_point}
use robocolony.Sim.Production.{produce}

-- What `Control` does with a robot: it may wipe the robot's registers, it may change the layer's
-- state, and it finds a controller or none. The controller decides on a view.
pub record Control (C : Type 0) : Type 0 where
  pub wipes : Bool
  pub layer : C
  pub decide : Option (RobotView → Action × C)

-- A world with no `Control` is one where it always finds none.
pub record Controllers (C : Type 0) : Type 0 where
  pub control : C → Robot → Control C
  pub on_destroy : C → ℕ → C

-- One reload step of a weapon module, and of all of a robot.
abbrev pub reload_one : ℕ → ℕ
reload_one n = if ltb 0 n then n - 1 else n

abbrev pub reload : Robot → Robot
reload r = record r { weapon_cooldown = map reload_one r.weapon_cooldown }

-- The robot as `Control` leaves it.
unfoldable pub after_control : Robot → Bool → Robot
after_control r true = record r { memory = replicate mem_points unset_point }
after_control r false = r

module _ {G : Type 0} ⦃g : Rng G⦄ where
  -- The loop of `salvage` over the installed components, with the number dropped so far.
  unfoldable pub roll_components : World G → Robot → ℕ → List ℕ → World G × ℕ
  roll_components w r dropped [] = (w, dropped)
  roll_components w r dropped (v ∷ vs) =
      let (roll, rng) = g.intn w.rng 100 in
      let w1 = record w { rng = rng } in
      let miss = leb salvage_drop_percent roll in
      roll_components (if miss then w1 else drop_at w1 r.coord v) r
        (if miss then dropped else dropped + 1) vs

  -- The module that survives where every roll came up empty.
  unfoldable pub drop_one : World G → Robot → World G
  drop_one w r =
      let (i, rng) = g.intn w.rng (length r.blueprint.components) in
      drop_at (record w { rng = rng }) r.coord (get_or r.blueprint.components i variant_none)

  unfoldable pub drop_cargo : World G → ℕ → Robot → World G
  drop_cargo w i r =
      if r.cargo == variant_none
      then w
      else put (drop_at w r.coord r.cargo) i (record r { cargo = variant_none })

  unfoldable pub salvage : World G → ℕ → Robot → World G
  salvage w i r =
      let (w', dropped) = roll_components (drop_cargo w i r) r 0 r.blueprint.components in
      if dropped == 0 then if length r.blueprint.components == 0 then w' else drop_one w' r else w'

  module _ {C : Type 0} (ctl : Controllers C) where
    -- One round of the loop of `sweepDestroyed`.
    unfoldable pub sweep_one : World G → C → ℕ → Robot → World G × C
    sweep_one w c i r = if not (is_destroyed r) then (w, c) else (
      update_stats (salvage w i r) r.colony (λ (s : Stats). record s { losses = s.losses + 1 }),
      ctl.on_destroy c r.id,
    )

    -- The rounds that are left, from index `i` on; no round changes the number of robots.
    unfoldable pub sweep_loop : ℕ → World G → C → ℕ → World G × C
    sweep_loop zero w c i = (w, c)
    sweep_loop (suc k) w c i = elim (get_elem? w.robots i) [
      | none ↦ (w, c)
      | some r ↦ let (w', c') = sweep_one w c i r in sweep_loop k w' c' (suc i)
    ]

    unfoldable pub sweep_destroyed : World G → C → World G × C
    sweep_destroyed w c =
        let (w', c') = sweep_loop (length w.robots) w c 0 in
        (record w' { robots = keep (λ r. not (is_destroyed r)) w'.robots }, c')

    -- A controller decides on the robot's view, and the action is applied.
    unfoldable pub consult :
        World G
        → C
        → List Signal
        → ℕ
        → Robot
        → Option (RobotView → Action × C)
        → World G × C × List Signal
    consult w c inbox i r none = (w, c, [])
    consult w c inbox i r (some decide) =
        let (a, c') = decide (view w r inbox) in let (w', sent) = apply w i r a in (w', c', sent)

    -- The robot's controller is looked up, which may wipe its registers, and consulted.
    unfoldable pub controlled :
        World G → List Signal → ℕ → Robot → Control C → World G × C × List Signal
    controlled w inbox i r found =
        let r' = after_control r found.wipes in
        consult (put w i r') found.layer inbox i r' found.decide

    -- The choice by the recall flag: a recalled robot's program is not consulted.
    unfoldable pub choose : World G → C → List Signal → ℕ → Robot → Bool → World G × C × List Signal
    choose w c inbox i r true = ((apply w i r (recall_action w r)).0, c, [])
    choose w c inbox i r false = controlled w inbox i r (ctl.control c r)

    -- The part of a robot's turn after its weapons are reloaded.
    unfoldable pub act : World G → C → List Signal → ℕ → Robot → World G × C × List Signal
    act w c inbox i r =
        if ltb 0 r.cooldown
        then (put w i (record r { cooldown = r.cooldown - 1 }), c, [])
        else choose w c inbox i r r.recalled

    -- One round of the loop over the robots: a wreck gets no turn.
    unfoldable pub turn_of : World G → C → List Signal → ℕ → Robot → World G × C × List Signal
    turn_of w c inbox i r =
        if is_destroyed r then (w, c, []) else act (put w i (reload r)) c inbox i (reload r)

    -- The rounds that are left, from index `i` on. A round reads its robot as the earlier rounds
    -- left it; no round changes the number of robots.
    unfoldable pub robots_loop :
        ℕ → World G → C → List Signal → ℕ → List Signal → World G × C × List Signal
    robots_loop zero w c inbox i next = (w, c, next)
    robots_loop (suc k) w c inbox i next = elim (get_elem? w.robots i) [
      | none ↦ (w, c, next)
      | some r ↦
          let (w', c', sent) = turn_of w c inbox i r in
          robots_loop k w' c' inbox (suc i) (next ++ sent)
    ]

    unfoldable pub count_active : World G → ℕ → Base → World G
    count_active w k b =
        if has_robots w b.colony
        then record w {
          bases = modify w.bases k (λ (b' : Base). record b' {
            stats = let s = b'.stats in record s { ticks_active = next_u64 s.ticks_active };
          });
        }
        else w

    -- The loop over the bases, likewise.
    unfoldable pub bases_loop : ℕ → World G → ℕ → World G
    bases_loop zero w k = w
    bases_loop (suc n) w k = elim (get_elem? w.bases k) [
      | none ↦ w
      | some b ↦ bases_loop n (count_active (produce w k b) k b) (suc k)
    ]

    unfoldable pub step : World G → C → World G × C
    step w c =
        let w0 = record w { events = [] } in
        if ended w0
        then (w0, c)
        else let (w1, c1, next) = robots_loop (length w0.robots) w0 c w0.signals 0 [] in
          let (w2, c2) = sweep_destroyed w1 c1 in
          let w3 = bases_loop (length w2.bases) w2 0 in
          (record w3 { signals = next; tick = next_u64 w3.tick }, c2)
