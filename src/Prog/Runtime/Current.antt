-- ===== src/Prog/Runtime/Current.antt =====
-- The runtime's evaluators run the programs that are installed.
use robocolony.Common.{
  ℕ, ◌+◌, ◌≤◌, ◌==◌, ◌≡◌, refl, sym, ap, ◌∙◌, subst, String, List, none, some, take, Bool, true,
  false, not, ap₂, arith, inl, inr, Bool-cases, Option-cases, ==→≡, ==_iff, and_parts,
}
use text.Mathlib.TextEquality.{eq_iff}
use text.Mathlib.TextPositions.{eq_refl}
use robocolony.Common.Assoc.{
  lookup, assign, delete, lookup-assign_same, lookup-assign_other, lookup-delete_same,
  lookup-delete_other,
}
use robocolony.Prog.Catalogue.{eq_string}
use robocolony.Prog.Structure.{max_rules}
use robocolony.Sim.World.State.{Robot, RobotView, Action}
use robocolony.Sim.Tick.{Control}
use robocolony.Prog.Decide.{decide}
use robocolony.Prog.Runtime.{
  Installed, Evaluator, Runtime, new_runtime, installed_at, evaluator_of, revision_of, install,
  new_evaluator, put_evaluator, run_evaluator, driven, refreshed, is_current, control_seen, control,
  forget, Program,
}

eq_string→≡ : (s t : String) → eq_string s t ≡ true → s ≡ t
eq_string→≡ s t e = (eq_iff s t).0 e

abbrev eq_ℕ : ℕ → ℕ → Bool
eq_ℕ i j = i == j

eq_ℕ→≡ : (i j : ℕ) → eq_ℕ i j ≡ true → i ≡ j
eq_ℕ→≡ i j e = ==→≡ i j e

eq_ℕ_refl : (i : ℕ) → eq_ℕ i i ≡ true
eq_ℕ_refl i = (==_iff i i).1 refl

-- The program of an evaluator was installed, at the evaluator's revision or a later one; if it is
-- that revision, the evaluator has its rules, cut to the limit.
pub record IsKnown (programs : List (String × Installed)) (e : Evaluator) : Type 0 where
  pub source : Installed
  pub found : lookup eq_string programs e.program_id ≡ some source
  pub older : e.revision ≤ source.revision
  pub rules : e.revision ≡ source.revision → e.program.rules ≡ take max_rules source.program.rules

unfoldable pub IsSound : Runtime → Type 0
IsSound rt = (id : ℕ) (e : Evaluator) → evaluator_of rt id ≡ some e → IsKnown rt.programs e

pub new_runtime-IsSound : IsSound new_runtime
unfolding new_runtime lookup IsSound
new_runtime-IsSound id e h = cc

put-IsSound :
    (rt : Runtime) (i : ℕ) (e : Evaluator)
    → IsSound rt
    → IsKnown rt.programs e
    → IsSound (put_evaluator rt i e)
unfolding IsSound
put-IsSound rt i e s k j d h = elim (Bool-cases (eq_ℕ i j)) [
  | inl q ↦
      let p : i ≡ j = eq_ℕ→≡ i j q in
      let f = lookup-assign_same eq_ℕ eq_ℕ→≡ eq_ℕ_refl rt.robots i e in
      let f' : lookup eq_ℕ (assign eq_ℕ rt.robots i e) j ≡ some e =
        subst (λ x. lookup eq_ℕ (assign eq_ℕ rt.robots i e) x ≡ some e) p f in
      let g : e ≡ d = cc in subst (IsKnown rt.programs) g k
  | inr q ↦ s j d (sym (lookup-assign_other eq_ℕ eq_ℕ→≡ eq_ℕ_refl rt.robots i e j q) ∙ h)
]

pub forget-IsSound : (rt : Runtime) (i : ℕ) → IsSound rt → IsSound (forget rt i)
unfolding IsSound forget
forget-IsSound rt i s j d h = elim (Bool-cases (eq_ℕ i j)) [
  | inl q ↦
      let p : i ≡ j = eq_ℕ→≡ i j q in
      let f = lookup-delete_same eq_ℕ eq_ℕ→≡ eq_ℕ_refl rt.robots i in
      let f' : lookup eq_ℕ (delete eq_ℕ rt.robots i) j ≡ none =
        subst (λ x. lookup eq_ℕ (delete eq_ℕ rt.robots i) x ≡ none) p f in
      cc
  | inr q ↦ s j d (sym (lookup-delete_other eq_ℕ eq_ℕ→≡ eq_ℕ_refl rt.robots i j q) ∙ h)
]

install-IsKnown :
    (rt : Runtime) (i : String) (p : Program) (e : Evaluator)
    → IsKnown rt.programs e
    → IsKnown (install rt i p).programs e
unfolding install
install-IsKnown rt i p e k = elim (Bool-cases (eq_string i e.program_id)) [
  | inl q ↦
      let same : i ≡ e.program_id = eq_string→≡ i e.program_id q in
      let there : lookup eq_string rt.programs i ≡ some k.source =
        subst (λ x. lookup eq_string rt.programs x ≡ some k.source) (sym same) k.found in
      let new : Installed = record {
        program = p;
        revision = revision_of (installed_at rt i) + 1;
      } in
      let rev : new.revision ≡ k.source.revision + 1 = ap (λ o. revision_of o + 1) there in
      record {
        source = new;
        found =
            subst (λ x. lookup eq_string (assign eq_string rt.programs i new) x ≡ some new) same
              (lookup-assign_same eq_string eq_string→≡ eq_refl rt.programs i new);
        older = let o = k.older in omega arith;
        rules = λ h. absurd (let o = k.older in omega arith);
      }
  | inr q ↦ record {
    source = k.source;
    found =
        lookup-assign_other eq_string eq_string→≡ eq_refl rt.programs i _ e.program_id q ∙ k.found;
    older = k.older;
    rules = k.rules;
  }
]

pub install-IsSound :
    (rt : Runtime) (i : String) (p : Program) → IsSound rt → IsSound (install rt i p)
unfolding IsSound install
install-IsSound rt i p s j d h = install-IsKnown rt i p d (s j d h)

new_evaluator-IsKnown :
    (programs : List (String × Installed)) (id : String) (cur : Installed)
    → lookup eq_string programs id ≡ some cur
    → IsKnown programs (new_evaluator id cur)
unfolding new_evaluator
new_evaluator-IsKnown programs id cur h = record {
  source = cur;
  found = h;
  older = omega arith;
  rules = λ q. refl;
}

-- What the runtime finds for a robot leaves it sound. A robot whose program is not installed gets no
-- controller. Any other robot is driven by the rules that are installed, and the runtime stays sound
-- when it has decided; the robot's registers are wiped if it had an evaluator that is not current.
pub record IsDriven (rt : Runtime) (r : Robot) (found : Control Runtime) : Type 0 where
  pub sound : IsSound found.layer
  pub idle : installed_at rt r.program_id ≡ none → found.decide ≡ none
  pub runs :
      (cur : Installed)
      → installed_at rt r.program_id ≡ some cur
      → (d : RobotView → Action × Runtime) × (found.decide ≡ some d)
        × ((v : RobotView)
            → ((d v).0 ≡ (decide (take max_rules cur.program.rules) v).0) × IsSound (d v).1)
  pub wipes :
      (cur : Installed) (e : Evaluator)
      → installed_at rt r.program_id ≡ some cur
      → evaluator_of rt r.id ≡ some e
      → found.wipes ≡ not (is_current e r.program_id cur)

run_evaluator-IsSound :
    (rt : Runtime) (i : ℕ) (e : Evaluator) (v : RobotView)
    → IsSound rt
    → IsKnown rt.programs e
    → IsSound (run_evaluator rt i e v).1
unfolding run_evaluator
run_evaluator-IsSound rt i e v s k =
    put-IsSound rt i _ s
      (record { source = k.source; found = k.found; older = k.older; rules = k.rules })

-- The controllers that `driven` makes of an evaluator with the installed rules.
driven_runs :
    (rt : Runtime) (r : Robot) (cur : Installed) (e : Evaluator) (wipes : Bool)
    → IsSound rt
    → IsKnown rt.programs e
    → e.program.rules ≡ take max_rules cur.program.rules
    → (d : RobotView → Action × Runtime) × ((driven rt r.id e wipes).decide ≡ some d)
      × ((v : RobotView)
          → ((d v).0 ≡ (decide (take max_rules cur.program.rules) v).0) × IsSound (d v).1)
unfolding run_evaluator
driven_runs rt r cur e wipes s k q = (
  λ v. run_evaluator rt r.id e v,
  refl,
  λ v. (ap (λ rules. (decide rules v).0) q, run_evaluator-IsSound rt r.id e v s k),
)

refreshed-IsDriven :
    (rt : Runtime) (r : Robot) (cur : Installed) (seen : Bool)
    → IsSound rt
    → installed_at rt r.program_id ≡ some cur
    → ((e : Evaluator) → evaluator_of rt r.id ≡ some e → seen ≡ not (is_current e r.program_id cur))
    → IsDriven rt r (refreshed rt r cur seen)
unfolding new_evaluator
refreshed-IsDriven rt r cur seen s i w =
    let e = new_evaluator r.program_id cur in
    let k = new_evaluator-IsKnown rt.programs r.program_id cur i in
    let s' = put-IsSound rt r.id e s k in
    record {
      sound = s';
      idle = λ h. cc;
      runs = λ c h.
          driven_runs (put_evaluator rt r.id e) r c e seen s' k
            (let q : cur ≡ c = cc in ap (λ (x : Installed). take max_rules x.program.rules) q);
      wipes =
          λ c d h f. let q : cur ≡ c = cc in w d f ∙ ap (λ x. not (is_current d r.program_id x)) q;
    }

current_rules :
    (rt : Runtime) (r : Robot) (cur : Installed) (e : Evaluator)
    → IsKnown rt.programs e
    → installed_at rt r.program_id ≡ some cur
    → is_current e r.program_id cur ≡ true
    → e.program.rules ≡ take max_rules cur.program.rules
current_rules rt r cur e k i c =
    let both = and_parts (eq_string e.program_id r.program_id) (e.revision == cur.revision) c in
    let same : e.program_id ≡ r.program_id = eq_string→≡ _ _ both.0 in
    let there : lookup eq_string rt.programs e.program_id ≡ some cur =
      subst (λ x. lookup eq_string rt.programs x ≡ some cur) (sym same) i in
    let found = k.found in
    let q : k.source ≡ cur = cc in
    let rev : e.revision ≡ k.source.revision =
      ==→≡ _ _ both.1 ∙ ap (λ (x : Installed). x.revision) (sym q) in
    k.rules rev ∙ ap (λ (x : Installed). take max_rules x.program.rules) q

seen-IsDriven :
    (rt : Runtime) (r : Robot) (cur : Installed)
    → IsSound rt
    → installed_at rt r.program_id ≡ some cur
    → IsDriven rt r (control_seen rt r cur (evaluator_of rt r.id))
unfolding IsSound
seen-IsDriven rt r cur s i = elim (Option-cases (evaluator_of rt r.id)) [
  | inl e ↦ rw e (refreshed-IsDriven rt r cur false s i (λ d f. absurd cc))
  | inr (old, e) ↦ elim (Bool-cases (is_current old r.program_id cur)) [
    | inl c ↦
        let k = s r.id old e in
        rw (e, c)
          (record {
            sound = s;
            idle = λ h. cc;
            runs = λ d h. driven_runs rt r d old false s k (
                current_rules rt r d old k h
                  (let q : cur ≡ d = cc in subst (λ x. is_current old r.program_id x ≡ true) q c));
            wipes = λ d o h f.
                let q : cur ≡ d = cc in
                let p : old ≡ o = cc in
                sym (ap not (ap₂ (λ x y. is_current x r.program_id y) (sym p) (sym q) ∙ c));
          })
    | inr c ↦
        rw (e, c)
          (refreshed-IsDriven rt r cur true s i (λ d f.
            let p : old ≡ d = cc in
            sym (ap not (ap (λ x. is_current x r.program_id cur) (sym p) ∙ c))))
  ]
]

-- In a sound runtime, what `control` finds for a robot is driven as `IsDriven` says.
pub control-IsDriven : (rt : Runtime) (r : Robot) → IsSound rt → IsDriven rt r (control rt r)
unfolding control forget
control-IsDriven rt r s = elim (Option-cases (installed_at rt r.program_id)) [
  | inl e ↦ rw e (record {
    sound = forget-IsSound rt r.id s;
    idle = λ h. refl;
    runs = λ c h. absurd cc;
    wipes = λ c d h f. absurd cc;
  })
  | inr (cur, e) ↦ rw e (seen-IsDriven rt r cur s e)
]
