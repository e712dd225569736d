-- ===== src/Prog/Decide/Writes.antt =====
-- What a decision writes to the registers.
use robocolony.Common.{
  get_elem?, ℕ, suc, ◌≡◌, refl, subst, ℤ, pos, ◌-ℤ◌, leb_ℤ, ltb_ℤ, Bool, true, false, ◌&&◌,
  if◌then◌else◌, arith, inl, inr,
}
use robocolony.Common.{List, [], ◌∷◌, ◌++◌, Option, none, some, All, All-append, Bool-cases}
use robocolony.Sim.Grid.{Coord, origin}
use robocolony.Sim.World.State.{RobotView, Signal, SignalKind, come_here, avoid_here, MemWrite}
use robocolony.Sim.World.State as State
use robocolony.Prog.Catalogue.{
  eq_string, do_save_current_position, do_save_visible_target, do_save_radar_target,
  do_save_signal_position, do_clear_point, do_broadcast_come_here, do_broadcast_avoid_here,
  ActionSpec, lookup_action,
}
use robocolony.Prog.Validate.Dominance.{none-ne-some}
use robocolony.Prog.Program.{Action, Rule}
use robocolony.Prog.Matcher.{matcher_of, cond}
use robocolony.Prog.Decide.{
  place, nearest_visible, origin_of, heard_signal, in_points, write, side_effect, Run, Trace,
  count_side, run_one, run_actions, take_tick, scan, idle_at_own_base_with_cargo, no_action,
  no_match, decide,
}

-- The write names one of the three registers.
abbrev pub Names : MemWrite → Type 0
Names m = (leb_ℤ (pos 0) m.point && ltb_ℤ m.point (pos 3)) ≡ true

abbrev pub Writes : State.Action → Type 0
Writes act = All Names act.memory

-- If there is a result, its writes are in range.
record MayWrite (o : Option State.Action) : Type 0 where
  writes : (act : State.Action) → o ≡ some act → Writes act

MayWrite-some : (act : State.Action) → Writes act → MayWrite (some act)
MayWrite-some act h = record { writes = λ act' e. let q : act ≡ act' = cc in subst Writes q h }

MayWrite-none : MayWrite none
MayWrite-none = record { writes = λ act e. absurd (none-ne-some e) }

point-Names :
    (arg : ℤ)
    → in_points arg ≡ true
    → (leb_ℤ (pos 0) (arg -ℤ pos 1) && ltb_ℤ (arg -ℤ pos 1) (pos 3)) ≡ true
unfolding ◌-ℤ◌
point-Names arg h = ground arith

write-MayWrite :
    (act : State.Action) (arg : ℤ) (c : Option Coord) → Writes act → MayWrite (write act arg c)
unfolding write
write-MayWrite act arg none h = MayWrite-none
write-MayWrite act arg (some c) h = elim (Bool-cases (in_points arg)) [
  | inl e ↦
      rw (e, write) (MayWrite-some _ (All-append Names act.memory _ h (point-Names arg e, tt)))
  | inr e ↦ rw (e, write) MayWrite-none
]

-- A test between two results that are both in range.
either-MayWrite :
    (b : Bool) {x y : Option State.Action} → MayWrite x → MayWrite y → MayWrite (if b then x else y)
either-MayWrite true p q = p
either-MayWrite false p q = q

clear-MayWrite :
    (act : State.Action) (arg : ℤ)
    → Writes act
    → MayWrite (
        if in_points arg
        then some (record act {
          memory = act.memory ++ record { point = arg -ℤ pos 1; coord = origin; clear = true } ∷ [];
        })
        else none)
clear-MayWrite act arg h = elim (Bool-cases (in_points arg)) [
  | inl e ↦ rw e (MayWrite-some _ (All-append Names act.memory _ h (point-Names arg e, tt)))
  | inr e ↦ rw e MayWrite-none
]

side_effect-MayWrite :
    (act : State.Action) (a : Action) (v : RobotView) (heard : Option Signal)
    → Writes act
    → MayWrite (side_effect act a v heard)
unfolding side_effect
side_effect-MayWrite act a v heard h =
    let is = eq_string a.do_id in
    let saves = λ (c : Option Coord). write-MayWrite act a.arg c h in
    let sends = λ (bs : List SignalKind). MayWrite-some (record act { broadcasts = bs }) h in
    either-MayWrite (is do_save_current_position) (saves (some v.coord)) (
      either-MayWrite (is do_save_visible_target) (saves (place (nearest_visible v))) (
        either-MayWrite (is do_save_radar_target) (saves (place (get_elem? v.radar_targets 0))) (
          either-MayWrite (is do_save_signal_position) (saves (origin_of (heard_signal v heard))) (
            either-MayWrite (is do_clear_point) (clear-MayWrite act a.arg h) (
              either-MayWrite (is do_broadcast_come_here) (sends (act.broadcasts ++ come_here ∷ []))
                (either-MayWrite (is do_broadcast_avoid_here)
                  (sends (act.broadcasts ++ avoid_here ∷ [])) MayWrite-none))))))

count_side-Writes :
    (s : Run) (o : Option State.Action) → Writes s.act → MayWrite o → Writes (count_side s o).act
count_side-Writes s none h m = h
count_side-Writes s (some act) h m = m.writes act refl

run_one-Writes :
    (v : RobotView) (heard : Option Signal) (a : Action) (s : Run) (spec : Option ActionSpec)
    → Writes s.act
    → Writes (run_one v heard a s spec).act
unfolding run_one
run_one-Writes v heard a s none h = h
run_one-Writes v heard a s (some spec) h = elim (Bool-cases spec.ends_tick) [
  | inl e ↦ rw (e, run_one) h
  | inr e ↦ rw (e, run_one) (count_side-Writes s _ h (side_effect-MayWrite s.act a v heard h))
]

run_actions-Writes :
    (v : RobotView) (heard : Option Signal) (todo : List Action) (s : Run)
    → Writes s.act
    → Writes (run_actions v heard todo s).act
unfolding run_actions
run_actions-Writes v heard [] s h = h
run_actions-Writes v heard (a ∷ rest) s h =
    run_actions-Writes v heard rest _ (run_one-Writes v heard a s (lookup_action a.do_id) h)

take_tick-Writes :
    (v : RobotView) (i : ℕ) (act : State.Action) (tr : Trace) (o : Option Action)
    (continued : State.Action × Trace)
    → Writes act
    → Writes continued.0
    → Writes (take_tick v i act tr o continued).0
unfolding take_tick
take_tick-Writes v i act tr none continued h k = k
take_tick-Writes v i act tr (some a) continued h k = h

scan-Writes :
    (v : RobotView) (i : ℕ) (rs : List Rule) (act : State.Action) (tr : Trace)
    → Writes act
    → Writes (scan v i rs act tr).0
unfolding scan
scan-Writes v i [] act tr h = h
scan-Writes v i (r ∷ rs) act tr h =
    let ran =
      run_actions-Writes v (cond (matcher_of v) r.when 0).1.signal r.then_do
        (record { act = act; side = tr.side; first = none }) h in
    elim (Bool-cases (cond (matcher_of v) r.when 0).0) [
      | inl e ↦ rw (e, scan) (take_tick-Writes v i _ _ _ _ ran (scan-Writes v (suc i) rs _ _ ran))
      | inr e ↦ rw (e, scan) (scan-Writes v (suc i) rs act tr h)
    ]

-- Every write to the registers that a decision asks for names one of the three registers, even
-- for a program that was never validated.
pub decide-Writes : (rules : List Rule) (v : RobotView) → Writes (decide rules v).0
unfolding decide
decide-Writes rules v =
    let scanned = scan-Writes v 0 rules no_action (no_match v) tt in
    elim (Bool-cases (idle_at_own_base_with_cargo v (scan v 0 rules no_action (no_match v)).0)) [
      | inl e ↦ rw (e, decide) scanned
      | inr e ↦ rw (e, decide) scanned
    ]
