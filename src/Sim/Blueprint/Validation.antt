-- ===== src/Sim/Blueprint/Validation.antt =====
-- `Validate` decides the configuration rules.
use robocolony.Common.{
  ℕ, suc, ◌+◌, ◌≤◌, ◌<◌, ◌≡◌, refl, ◌↔◌, ◌≢◌, ◌⊎◌, inl, inr, true, List, [], ◌∷◌,
}
use robocolony.Common.{
  none, some, length, keep, All, is_some, get_or, modify, length-modify, get_or-modify, ◌==◌,
  if◌then◌else◌, arith, ◌∙◌, sym, Option-cases, Sum-cases, replicate,
}
use robocolony.Sim.Catalogue.{kind, is_kind, kind_locomotion, kind_armor, kind_radar, kind_weapon}
use robocolony.Sim.Catalogue.{kind_count, kind-lt, is_kind_lem}
use robocolony.Sim.Blueprint.{Blueprint, validate, count_kinds, check_counts, ValidateError}

-- How many components of a kind there are.
abbrev pub number_of : ℕ → List ℕ → ℕ
number_of k vs = length (keep (is_kind k) vs)

abbrev pub IsKnown : ℕ → Type 0
IsKnown v = is_some (kind v) ≡ true

-- The configuration rules of the design.
pub record IsConfigured (b : Blueprint) : Type 0 where
  pub known : All IsKnown b.components
  pub one_locomotion : number_of kind_locomotion b.components ≡ 1
  pub one_armor : number_of kind_armor b.components ≡ 1
  pub radars : number_of kind_radar b.components ≤ 1
  pub weapons : number_of kind_weapon b.components ≤ 2

known-ne-none : (v : ℕ) → IsKnown v → kind v ≢ none
known-ne-none v h e = ground arith

number_of-cons :
    (j v : ℕ) (vs : List ℕ) {k : ℕ}
    → kind v ≡ some k
    → number_of j (v ∷ vs) ≡ number_of j vs + (if k == j then 1 else 0)
number_of-cons j v vs {k} e = ground (arith, is_kind_lem j v e)

-- The counts after the loop: those before it, and the number of components of each kind.
record Counted (counts : List ℕ) (vs : List ℕ) (r : ValidateError ⊎ List ℕ) : Type 0 where
  out : List ℕ
  returns : r ≡ inr out
  total : (k : ℕ) → k < 5 → get_or out k 0 ≡ get_or counts k 0 + number_of k vs

count_kinds-Counted :
    (counts vs : List ℕ)
    → length counts ≡ 5
    → All IsKnown vs
    → Counted counts vs (count_kinds counts vs)
unfolding count_kinds
count_kinds-Counted counts [] l h = record {
  out = counts;
  returns = refl;
  total = λ k b. omega arith;
}
count_kinds-Counted counts (v ∷ vs) l h = elim (Option-cases (kind v)) [
  | inl e ↦ absurd (known-ne-none v h.0 e)
  | inr (k, e) ↦
      let r = count_kinds-Counted (modify counts k suc) vs (length-modify counts k suc ∙ l) h.1 in
      record {
        out = r.out;
        returns = rw (e, count_kinds) r.returns;
        total = λ j b. omega (
          arith,
          r.total j b,
          get_or-modify counts k j (rw l (kind-lt v e)),
          number_of-cons j v vs e,
        );
      }
]

some-ne-none : {e : ValidateError} → some e ≢ none
some-ne-none h = cc

inl-ne-inr : {e : ValidateError} {out : List ℕ} → inl e ≢ inr out
inl-ne-inr h = cc

-- The loop ends normally only on known variants.
count_kinds-IsKnown :
    (counts vs : List ℕ) {out : List ℕ} → count_kinds counts vs ≡ inr out → All IsKnown vs
unfolding count_kinds
count_kinds-IsKnown counts [] h = tt
count_kinds-IsKnown counts (v ∷ vs) h = elim (Option-cases (kind v)) [
  | inl e ↦ absurd (inl-ne-inr (rw (e, count_kinds) at h))
  | inr (k, e) ↦
      (rw e refl, count_kinds-IsKnown (modify counts k suc) vs (rw (e, count_kinds) at h))
]

check_counts_iff :
    (c : List ℕ)
    → (check_counts c ≡ none) ↔ (
        (get_or c kind_locomotion 0 ≡ 1)
        × (get_or c kind_armor 0 ≡ 1)
        × (get_or c kind_radar 0 ≤ 1)
        × (get_or c kind_weapon 0 ≤ 2))
unfolding check_counts
check_counts_iff c = ground arith

module _ (b : Blueprint) where
  counted :
      All IsKnown b.components
      → Counted
          (replicate kind_count 0)
          b.components
          (count_kinds (replicate kind_count 0) b.components)
  counted h = count_kinds-Counted (replicate kind_count 0) b.components refl h

  validate-check : (h : All IsKnown b.components) → validate b ≡ check_counts (counted h).out
  unfolding validate
  validate-check h = rw ((counted h).returns, validate)

  validate-IsKnown : validate b ≡ none → All IsKnown b.components
  unfolding validate
  validate-IsKnown h = elim (Sum-cases (count_kinds (replicate kind_count 0) b.components)) [
    | inl (e, q) ↦ absurd (some-ne-none (rw (q, validate) at h))
    | inr (out, q) ↦ count_kinds-IsKnown (replicate kind_count 0) b.components q
  ]

  -- `Validate` returns no error exactly on the blueprints that keep the rules.
  pub validate_iff : (validate b ≡ none) ↔ IsConfigured b
  validate_iff = (to, from)
    where
      to : validate b ≡ none → IsConfigured b
      to h =
          let known = validate-IsKnown h in
          let c = counted known in
          let checks = (check_counts_iff c.out).0 (sym (validate-check known) ∙ h) in
          record {
            known = known;
            one_locomotion = omega (arith, c.total kind_locomotion (omega arith));
            one_armor = omega (arith, c.total kind_armor (omega arith));
            radars = omega (arith, c.total kind_radar (omega arith));
            weapons = omega (arith, c.total kind_weapon (omega arith));
          }

      from : IsConfigured b → validate b ≡ none
      from v =
          let c = counted v.known in
          validate-check v.known
          ∙ (check_counts_iff c.out).1 (
            omega (arith, c.total kind_locomotion (omega arith), v.one_locomotion),
            omega (arith, c.total kind_armor (omega arith), v.one_armor),
            omega (arith, c.total kind_radar (omega arith), v.radars),
            omega (arith, c.total kind_weapon (omega arith), v.weapons),
          )
