-- ===== src/Prog/Validate/Dominance.antt =====
-- A condition that is a conjunction holds exactly if its keys do.
use robocolony.Common.{
  ℕ, ◌+◌, ◌≡◌, ◌≢◌, refl, ◌∙◌, subst, leb, ℤ, Bool, true, false, ◌&&◌, ◌||◌, String, arith,
}
use robocolony.Common.{List, [], ◌∷◌, ◌++◌, Option, none, some, inl, inr, Bool-cases, Option-cases}
use robocolony.Prog.Catalogue.{eq_string, pred_received_come_here, pred_received_avoid_here}
use robocolony.Prog.Program.{
  op_pred, op_and, op_or, op_not, op_other, Condition, cond_node, Conditions, no_more, one_more,
  max_cond_depth,
}
use robocolony.Prog.Matcher.{
  Matcher, truth, heard, optimistic, listen, pred, capped, cond, cond_all,
}
use robocolony.Prog.Validate.{Key, nonempty, shallow, conjuncts, conjuncts_all}

-- The matchers differ at most in the signal heard.
pub record Agrees (m m' : Matcher) : Type 0 where
  pub v : m'.v ≡ m.v
  pub any_world : m'.any_world ≡ m.any_world
  pub neg : m'.neg ≡ m.neg

-- What the keys say together.
abbrev pub all_hold : Matcher → List Key → Bool
all_hold m [] = true
all_hold m (k ∷ ks) = (pred m k.id k.arg).0 && all_hold m ks

all_hold-append :
    (m : Matcher) (xs ys : List Key) → all_hold m (xs ++ ys) ≡ (all_hold m xs && all_hold m ys)
all_hold-append m [] ys = refl
all_hold-append m (x ∷ xs) ys = ground (arith, all_hold-append m xs ys)

pred-value :
    (m : Matcher) (i : String) (arg : ℤ) → (pred m i arg).0 ≡ (optimistic m i || truth m.v i arg)
unfolding pred
pred-value m i arg = elim (Bool-cases (optimistic m i)) [
  | inl e ↦ rw (e, pred) refl
  | inr e ↦ rw (e, pred) refl
]

pred-Agrees :
    (m m' : Matcher) (i : String) (arg : ℤ) → Agrees m m' → (pred m' i arg).0 ≡ (pred m i arg).0
unfolding optimistic
pred-Agrees m m' i arg a =
    rw (pred-value m i arg, pred-value m' i arg, a.v, a.any_world, a.neg) refl

all_hold-Agrees : (m m' : Matcher) (ks : List Key) → Agrees m m' → all_hold m' ks ≡ all_hold m ks
all_hold-Agrees m m' [] a = refl
all_hold-Agrees m m' (k ∷ ks) a = rw (pred-Agrees m m' k.id k.arg a, all_hold-Agrees m m' ks a) refl

heard-Agrees : (m : Matcher) (i : String) → Agrees m (heard m i)
unfolding heard listen
heard-Agrees m i = elim (Bool-cases (eq_string i pred_received_come_here)) [
  | inl e ↦ rw (e, heard) (record { v = refl; any_world = refl; neg = refl })
  | inr e ↦ elim (Bool-cases (eq_string i pred_received_avoid_here)) [
    | inl f ↦ rw (e, f, heard) (record { v = refl; any_world = refl; neg = refl })
    | inr f ↦ rw (e, f, heard) (record { v = refl; any_world = refl; neg = refl })
  ]
]

Agrees-pred : (m : Matcher) (i : String) (arg : ℤ) → Agrees m (pred m i arg).1
unfolding pred
Agrees-pred m i arg = elim (Bool-cases (optimistic m i)) [
  | inl e ↦ rw (e, pred) (record { v = refl; any_world = refl; neg = refl })
  | inr e ↦ rw (e, pred) (heard-Agrees m i)
]

Agrees-trans : {a b c : Matcher} → Agrees a b → Agrees b c → Agrees a c
Agrees-trans x y = record {
  v = y.v ∙ x.v;
  any_world = y.any_world ∙ x.any_world;
  neg = y.neg ∙ x.neg;
}

-- The result is what the keys say, and the matcher has changed in its signal at most.
pub record Decides (m : Matcher) (ks : List Key) (r : Bool × Matcher) : Type 0 where
  pub value : r.0 ≡ all_hold m ks
  pub after : Agrees m r.1

nonempty-some : (o : Option (List Key)) {ks : List Key} → nonempty o ≡ some ks → o ≡ some ks
nonempty-some none e = e
nonempty-some (some []) e = cc
nonempty-some (some (k ∷ ks)) e = e

pub none-ne-some {ℓ} : {A : Type ℓ} {x : A} → none ≢ some x
none-ne-some e = cc

capped-Decides :
    (depth : ℕ) (m : Matcher) (ks : List Key) (keys : Option (List Key)) (r : Bool × Matcher)
    → shallow depth keys ≡ some ks
    → (keys ≡ some ks → Decides m ks r)
    → Decides m ks (capped depth m r)
capped-Decides depth m ks keys r e h = elim (Bool-cases (leb max_cond_depth depth)) [
  | inl deep ↦ absurd (none-ne-some (rw deep at e))
  | inr near ↦ rw near (h (rw near at e))
]

mutual
  unfolding cond conjuncts

  pub cond-conjuncts :
      (c : Condition) (depth : ℕ) (ks : List Key) (m : Matcher)
      → conjuncts c depth ≡ some ks
      → Decides m ks (cond m c depth)
  cond-conjuncts (cond_node op_pred i arg cs) depth ks m e =
      capped-Decides depth m ks _ (pred m i arg) e (λ q.
        let same : record { id = i; arg = arg } ∷ [] ≡ ks = cc in
        subst (λ z. Decides m z (pred m i arg)) same
          (record { value = ground arith; after = Agrees-pred m i arg }))
  cond-conjuncts (cond_node op_and i arg no_more) depth ks m e =
      capped-Decides depth m ks none (false, m) e (λ q. absurd (none-ne-some q))
  cond-conjuncts (cond_node op_and i arg (one_more c cs)) depth ks m e =
      capped-Decides depth m ks _ _ e
        (λ q. cond_all-conjuncts (one_more c cs) (depth + 1) ks m (nonempty-some _ q))
  cond-conjuncts (cond_node op_or i arg cs) depth ks m e = absurd (none-ne-some e)
  cond-conjuncts (cond_node op_not i arg cs) depth ks m e = absurd (none-ne-some e)
  cond-conjuncts (cond_node op_other i arg cs) depth ks m e = absurd (none-ne-some e)

  cond_all-conjuncts :
      (cs : Conditions) (depth : ℕ) (ks : List Key) (m : Matcher)
      → conjuncts_all cs depth ≡ some ks
      → Decides m ks (cond_all m cs depth)
  cond_all-conjuncts no_more depth ks m e =
      let same : [] ≡ ks = cc in
      subst (λ z. Decides m z (true, m)) same
        (record { value = refl; after = record { v = refl; any_world = refl; neg = refl } })
  cond_all-conjuncts (one_more c cs) depth ks m e =
      let first = conjuncts c depth in
      let rest = conjuncts_all cs depth in
      elim (Option-cases first) [
        | inl q ↦ absurd (none-ne-some (rw q at e))
        | inr (xs, q) ↦ elim (Option-cases rest) [
          | inl q' ↦ absurd (none-ne-some (rw (q, q') at e))
          | inr (ys, q') ↦
              let joined : some (xs ++ ys) ≡ some ks = rw (q, q') at e in
              let same : xs ++ ys ≡ ks = cc in
              let one = cond-conjuncts c depth xs m q in
              let m' = (cond m c depth).1 in
              let others = cond_all-conjuncts cs depth ys m' q' in
              let all = all_hold-append m xs ys in
              let still = all_hold-Agrees m m' ys one.after in
              subst (λ z. Decides m z (cond_all m (one_more c cs) depth)) same
                (elim (Bool-cases (cond m c depth).0) [
                  | inl yes_c ↦
                      rw (yes_c, cond)
                        (record {
                          value = ground (arith, one.value, others.value, all, still, yes_c);
                          after = Agrees-trans one.after others.after;
                        })
                  | inr no_c ↦
                      rw (no_c, cond)
                        (record { value = ground (arith, one.value, all, no_c); after = one.after })
                ])
        ]
      ]
