-- ===== src/Prog/Decide/First.antt =====
-- Which rule takes the tick.
use robocolony.Common.{
  ℕ, suc, ◌≡◌, ◌≢◌, ◌≤◌, ◌<◌, refl, sym, ap, subst, ◌∙◌, Bool, true, false, ◌||◌, arith, ◌⊎◌, inl,
  inr,
}
use robocolony.Common.{
  List, [], ◌∷◌, Option, none, some, is_some, get_elem?, Bool-cases, Option-cases, IsTail,
  IsTail-start, IsTail-cons, IsTail-head, All-get,
}
use robocolony.Sim.World.State.{RobotView, Signal}
use robocolony.Sim.World.State as State
use robocolony.Prog.Catalogue.{ActionSpec, lookup_action}
use robocolony.Prog.Program.{Action, Rule, is_primary}
use robocolony.Prog.Matcher.{matcher_of, cond}
use robocolony.Prog.Validate.Dominance.{none-ne-some}
use robocolony.Prog.Validate.{has_primary, any_primary, warn_dominated}
use robocolony.Prog.Validate.Unreachable.{Preempts, dominated_from-Preempts, warn_dominated_lem}
use robocolony.Prog.Decide.{
  Run, Trace, count_side, earliest, run_one, run_actions, take_tick, scan,
  idle_at_own_base_with_cargo, no_action, no_match, decide, side_effect,
}

abbrev pub holds_on : RobotView → Rule → Bool
holds_on v r = (cond (matcher_of v) r.when 0).0

is_some-earliest : (o : Option Action) (a : Action) → is_some (earliest o a) ≡ true
is_some-earliest none a = refl
is_some-earliest (some b) a = refl

count_side-first : (s : Run) (o : Option State.Action) → (count_side s o).first ≡ s.first
count_side-first s none = refl
count_side-first s (some act) = refl

run_one-first :
    (v : RobotView) (heard : Option Signal) (a : Action) (s : Run) (spec : Option ActionSpec)
    → lookup_action a.do_id ≡ spec
    → is_some (run_one v heard a s spec).first ≡ (is_some s.first || is_primary a)
unfolding run_one is_primary
run_one-first v heard a s none e = rw (e, is_primary) (ground arith)
run_one-first v heard a s (some spec) e = elim (Bool-cases spec.ends_tick) [
  | inl t ↦ rw (e, is_primary, t, run_one) (ground (arith, is_some-earliest s.first a))
  | inr t ↦
      rw (e, is_primary, t, run_one)
        (ground (arith, count_side-first s (side_effect s.act a v heard)))
]

run_actions-first :
    (v : RobotView) (heard : Option Signal) (as' : List Action) (s : Run)
    → is_some (run_actions v heard as' s).first ≡ (is_some s.first || any_primary as')
unfolding run_actions any_primary
run_actions-first v heard [] s = ground arith
run_actions-first v heard (a ∷ rest) s =
    let here = run_one-first v heard a s (lookup_action a.do_id) refl in
    ground
      (arith, here, run_actions-first v heard rest (run_one v heard a s (lookup_action a.do_id)))

-- The rule with index `j` matches and has a primary action, and no rule from `k` on before it does.
pub record Takes (v : RobotView) (all : List Rule) (k j : ℕ) : Type 0 where
  pub rule : Rule
  pub from : k ≤ j
  pub found : get_elem? all j ≡ some rule
  pub acts : has_primary rule ≡ true
  pub holds : holds_on v rule ≡ true
  pub first :
      (i : ℕ) (r : Rule)
      → k ≤ i
      → i < j
      → get_elem? all i ≡ some r
      → has_primary r ≡ true
      → holds_on v r ≡ false

true-ne-false : {b : Bool} → b ≡ true → b ≡ false → ⊥
true-ne-false p q = cc

at_or_after : (k i : ℕ) → k ≤ i → (i ≡ k) ⊎ (suc k ≤ i)
at_or_after k i h = grind arith

-- A rule before that does not take the tick changes nothing.
extend :
    (v : RobotView) (all : List Rule) (k j : ℕ) (r : Rule)
    → get_elem? all k ≡ some r
    → (has_primary r ≡ true → holds_on v r ≡ false)
    → Takes v all (suc k) j
    → Takes v all k j
extend v all k j r e quiet t = record {
  rule = t.rule;
  from = omega (arith, t.from);
  found = t.found;
  acts = t.acts;
  holds = t.holds;
  first = λ i r' l b g p. elim (at_or_after k i l) [
    | inl same ↦
        let here : some r' ≡ some r = sym g ∙ ap (get_elem? all) same ∙ e in
        let q : r' ≡ r = cc in
        subst (λ z. holds_on v z ≡ false) (sym q) (quiet (subst (λ z. has_primary z ≡ true) q p))
    | inr after ↦ t.first i r' after b g p
  ];
}

scan-Takes :
    (v : RobotView) (all : List Rule) (k : ℕ) (rs : List Rule) (act : State.Action) (tr : Trace)
    (j : ℕ)
    → IsTail all k rs
    → tr.rule ≡ none
    → (scan v k rs act tr).1.rule ≡ some j
    → Takes v all k j
unfolding scan take_tick
scan-Takes v all k [] act tr j t n h = absurd (none-ne-some (sym n ∙ h))
scan-Takes v all k (r ∷ rs) act tr j t n h =
    let m = (cond (matcher_of v) r.when 0).1 in
    let start : Run = record { act = act; side = tr.side; first = none } in
    let run = run_actions v m.signal r.then_do start in
    let primary = run_actions-first v m.signal r.then_do start in
    let here = IsTail-head t in
    elim (Bool-cases (holds_on v r)) [
      | inr no_match ↦
          extend v all k j r here (λ p. no_match)
            (scan-Takes v all (suc k) rs act tr j (IsTail-cons t) n (rw (no_match, scan) at h))
      | inl match ↦ elim (Option-cases run.first) [
        | inl q ↦
            extend v all k j r here (λ p. absurd (true-ne-false p (sym primary ∙ ap is_some q)))
              (scan-Takes v all (suc k) rs run.act _ j (IsTail-cons t) n (rw (match, q, scan) at h))
        | inr (a, q) ↦
            let now : some k ≡ some j = rw (match, q, scan) at h in
            let same : k ≡ j = cc in
            record {
              rule = r;
              from = omega (arith, same);
              found = subst (λ z. get_elem? all z ≡ some r) same here;
              acts = sym primary ∙ ap is_some q;
              holds = match;
              first = λ i r' l b g p. absurd (omega (arith, same));
            }
      ]
    ]

-- The rule that the trace of `Decide` names is the first in the program that matches the view and
-- has a primary action: it matches and has one, and no rule before it that has one matches.
pub decide-Takes :
    (rules : List Rule) (v : RobotView) (j : ℕ)
    → (decide rules v).1.rule ≡ some j
    → Takes v rules 0 j
unfolding decide
decide-Takes rules v j h =
    let found = scan v 0 rules no_action (no_match v) in
    elim (Bool-cases (idle_at_own_base_with_cargo v found.0)) [
      | inl reflex ↦ absurd (none-ne-some (rw (reflex, decide) at h))
      | inr own ↦
          scan-Takes v rules 0 rules no_action (no_match v) j (IsTail-start rules) refl
            (rw (own, decide) at h)
    ]

-- A rule that a warning calls unreachable never takes the tick, on any view.
pub decide-warn_dominated :
    (rules : List Rule) (n j i : ℕ) (v : RobotView)
    → get_elem? (warn_dominated rules) n ≡ some (j, i)
    → (decide rules v).1.rule ≢ some j
unfolding warn_dominated
decide-warn_dominated rules n j i v w h =
    let t = decide-Takes rules v j h in
    let p =
      All-get (Preempts rules) (warn_dominated rules) n w
        (dominated_from-Preempts rules 0 rules (IsTail-start rules)) in
    let d = p.by_earlier in
    let covers = warn_dominated_lem rules n j i t.rule d.rule v w t.found d.found t.holds in
    true-ne-false covers.2 (t.first i d.rule (omega arith) covers.0 d.found covers.1)
