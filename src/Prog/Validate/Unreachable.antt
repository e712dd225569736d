-- ===== src/Prog/Validate/Unreachable.antt =====
-- The warning of an unreachable rule is right.
use text.Mathlib.TextEquality.{eq_iff}
use robocolony.Common.{
  ℕ, zero, suc, ◌+◌, ◌≡◌, ◌<◌, ◌≢◌, refl, ◌∙◌, sym, subst, eqb_ℤ→≡, true, false, arith,
}
use robocolony.Common.{
  All, All-get, List, [], ◌∷◌, some, inl, inr, Bool-cases, Option-cases, IsTail, IsTail-start,
  IsTail-cons, IsTail-head, get_elem?,
}
use robocolony.Sim.World.State.{RobotView}
use robocolony.Prog.Program.{Rule}
use robocolony.Prog.Matcher.{Matcher, matcher_of, pred, cond}
use robocolony.Prog.Validate.{
  Key, eq_key, has_primary, has_key, subset, conjuncts, keys_of, covered, first_dominator,
  dominator, dominated_from, warn_dominated,
}
use robocolony.Prog.Validate.Dominance.{all_hold, cond-conjuncts, none-ne-some}

eq_key→≡ : (a b : Key) → eq_key a b ≡ true → (a.id ≡ b.id) × (a.arg ≡ b.arg)
eq_key→≡ a b h = ((eq_iff a.id b.id).0 (ground arith), eqb_ℤ→≡ a.arg b.arg (ground arith))

has_key-holds :
    (m : Matcher) (k : Key) (have : List Key)
    → has_key k have ≡ true
    → all_hold m have ≡ true
    → (pred m k.id k.arg).0 ≡ true
has_key-holds m k [] h a = cc
has_key-holds m k (x ∷ xs) h a = elim (Bool-cases (eq_key x k)) [
  | inl e ↦
      let q = eq_key→≡ x k e in
      let holds : (pred m x.id x.arg).0 ≡ true = ground arith in
      subst (λ i. (pred m i k.arg).0 ≡ true) q.0 (subst (λ n. (pred m x.id n).0 ≡ true) q.1 holds)
  | inr e ↦ has_key-holds m k xs (ground arith) (ground arith)
]

subset-holds :
    (m : Matcher) (ks have : List Key)
    → subset ks have ≡ true
    → all_hold m have ≡ true
    → all_hold m ks ≡ true
unfolding subset
subset-holds m [] have h a = refl
subset-holds m (k ∷ ks) have h a =
    ground (arith, has_key-holds m k have (ground arith) a, subset-holds m ks have (ground arith) a)

-- The rule has a primary action, and its condition is a conjunction of keys among `have`.
pub record CoveredBy (r : Rule) (have : List Key) : Type 0 where
  keys : List Key
  acts : has_primary r ≡ true
  reads : conjuncts r.when 0 ≡ some keys
  among : subset keys have ≡ true

false-ne-true : false ≢ true
false-ne-true e = cc

covered-CoveredBy :
    (r : Rule) (have : List Key) → covered (keys_of r) have ≡ true → CoveredBy r have
unfolding keys_of
covered-CoveredBy r have h = elim (Bool-cases (has_primary r)) [
  | inr e ↦ absurd (false-ne-true (rw (e, keys_of) at h))
  | inl e ↦ elim (Option-cases (conjuncts r.when 0)) [
    | inl q ↦ absurd (false-ne-true (rw (e, q, keys_of) at h))
    | inr (ks, q) ↦ record { keys = ks; acts = e; reads = q; among = rw (e, q, keys_of) at h }
  ]
]

-- Among the rules with an index below `n`, the one with index `d` covers the keys.
pub record Dominator (all : List Rule) (n : ℕ) (have : List Key) (d : ℕ) : Type 0 where
  pub rule : Rule
  pub earlier : d < n
  pub found : get_elem? all d ≡ some rule
  pub covers : CoveredBy rule have

first_dominator-Dominator :
    (all : List Rule) (k i : ℕ) (rs : List Rule) (have : List Key) (d : ℕ)
    → IsTail all i rs
    → first_dominator k i rs have ≡ some d
    → Dominator all (i + k) have d
unfolding first_dominator
first_dominator-Dominator all zero i rs have d t e = absurd (none-ne-some e)
first_dominator-Dominator all (suc k) i [] have d t e = absurd (none-ne-some e)
first_dominator-Dominator all (suc k) i (r ∷ rs) have d t e =
    elim (Bool-cases (covered (keys_of r) have)) [
      | inl c ↦
          let here : some i ≡ some d = rw (c, first_dominator) at e in
          let same : i ≡ d = cc in
          record {
            rule = r;
            earlier = omega (arith, same);
            found = subst (λ n. get_elem? all n ≡ some r) same (IsTail-head t);
            covers = covered-CoveredBy r have c;
          }
      | inr c ↦
          let later =
            first_dominator-Dominator all k (suc i) rs have d (IsTail-cons t)
              (rw (c, first_dominator) at e) in
          record {
            rule = later.rule;
            earlier = omega (arith, later.earlier);
            found = later.found;
            covers = later.covers;
          }
    ]

-- What a warning rests on: the later rule is a conjunction, and the earlier one covers its keys.
pub record Preempts (all : List Rule) (p : ℕ × ℕ) : Type 0 where
  pub rule : Rule
  pub keys : List Key
  pub found : get_elem? all p.0 ≡ some rule
  pub reads : conjuncts rule.when 0 ≡ some keys
  pub by_earlier : Dominator all p.0 keys p.1

pub dominated_from-Preempts :
    (all : List Rule) (j : ℕ) (rs : List Rule)
    → IsTail all j rs
    → All (Preempts all) (dominated_from all j rs)
unfolding dominated_from dominator
dominated_from-Preempts all j [] t = tt
dominated_from-Preempts all j (r ∷ rs) t =
    let rest = dominated_from-Preempts all (suc j) rs (IsTail-cons t) in
    elim (Option-cases (conjuncts r.when 0)) [
      | inl e ↦ rw (e, dominated_from) rest
      | inr (ks, e) ↦ elim (Option-cases (first_dominator j 0 all ks)) [
        | inl q ↦ rw (e, q, dominated_from) rest
        | inr (d, q) ↦
            let found = first_dominator-Dominator all j 0 all ks d (IsTail-start all) q in
            rw (e, q, dominated_from)
              (
                record {
                  rule = r;
                  keys = ks;
                  found = IsTail-head t;
                  reads = e;
                  by_earlier = record {
                    rule = found.rule;
                    earlier = omega (arith, found.earlier);
                    found = found.found;
                    covers = found.covers;
                  };
                },
                rest,
              )
      ]
    ]

-- Where a warning says that the rule with index `j` can never run because that with index `i`
-- always matches first, `i` comes before `j` and has a primary action, and on every view on which
-- the condition of `j` holds, that of `i` holds.
pub warn_dominated_lem :
    (rules : List Rule) (n j i : ℕ) (later earlier : Rule) (v : RobotView)
    → get_elem? (warn_dominated rules) n ≡ some (j, i)
    → get_elem? rules j ≡ some later
    → get_elem? rules i ≡ some earlier
    → (cond (matcher_of v) later.when 0).0 ≡ true
    → (i < j) × (has_primary earlier ≡ true) × ((cond (matcher_of v) earlier.when 0).0 ≡ true)
unfolding warn_dominated
warn_dominated_lem rules n j i later earlier v w f g h =
    let p =
      All-get (Preempts rules) (warn_dominated rules) n w
        (dominated_from-Preempts rules 0 rules (IsTail-start rules)) in
    let d = p.by_earlier in
    let one : some p.rule ≡ some later = sym p.found ∙ f in
    let same_later : p.rule ≡ later = cc in
    let two : some d.rule ≡ some earlier = sym d.found ∙ g in
    let same_earlier : d.rule ≡ earlier = cc in
    let m = matcher_of v in
    let mine = (cond-conjuncts p.rule.when 0 p.keys m p.reads).value in
    let its = (cond-conjuncts d.rule.when 0 d.covers.keys m d.covers.reads).value in
    let holds : (cond m p.rule.when 0).0 ≡ true =
      subst (λ r. (cond m r.when 0).0 ≡ true) (sym same_later) h in
    (
      d.earlier,
      subst (λ r. has_primary r ≡ true) same_earlier d.covers.acts,
      subst (λ r. (cond m r.when 0).0 ≡ true) same_earlier
          (its ∙ subset-holds m d.covers.keys p.keys d.covers.among (sym mine ∙ holds)),
    )
