-- ===== src/Lobby/Settings/Ranges.antt =====
-- The ranges that the settings of internal/lobby/settings.go have to be in, by numbers and names, and
-- the tests of `Validate` for them.
use mathlib.Core.List.{Memᴰ}
use text.Mathlib.TextEquality.{eq_iff}
use robocolony.Common.{
  ℕ, ◌≡◌, refl, sym, ap, ◌∙◌, map, if_false, ℤ, pos, ◌≤ℤ◌, ◌⊎◌, inl, inr, ◌||◌, ◌&&◌, eqb_ℤ,
  ltb_false→le, le→ltb_false, ◌==◌, Bool, true, false, not, Bool-cases, String, List, [], ◌∷◌,
  eqb_ℤ→≡, or_false_parts,
}
use robocolony.Common.Assoc.{lookup}
use robocolony.Prog.Catalogue.{eq_string}
use robocolony.Lobby.Settings.{
  Floats, Settings, bad_budget_of, bad_density_of, bad_arena_of, valid_profile, elem_string, zero_f,
  size_or, arena_presets,
}

pub not-false : (b : Bool) → not b ≡ false → b ≡ true
not-false true h = refl
not-false false h = absurd cc

or_right : (a b : Bool) → a ≡ false → (a || b) ≡ true → b ≡ true
or_right true b e h = absurd cc
or_right false b e h = h

-- The range counts when the value is set.
set-passes : (a b : Bool) → a ≡ false → (not a && b) ≡ false → b ≡ false
set-passes true b e h = absurd cc
set-passes false b e h = h

-- Unset, or from 115 to ten million.
abbrev pub IsAllowedBudget : ℤ → Type 0
IsAllowedBudget b = (b ≡ pos 0) ⊎ (pos 115 ≤ℤ b) × (b ≤ℤ pos 10000000)

-- A name that the table has no entry for reads as zero.
known_size :
    (table : List (String × ℕ)) (a : String)
    → (size_or (lookup eq_string table a) 0 == 0) ≡ false
    → elem_string a (map (λ (e : String × ℕ). e.0) table) ≡ true
unfolding lookup
known_size [] a h = absurd cc
known_size ((t, n) ∷ table) a h = elim (Bool-cases (eq_string t a)) [
  | inl e ↦ rw e refl
  | inr e ↦ rw e (known_size table a (sym (ap (λ o. size_or o 0 == 0) (if_false _ _ e)) ∙ h))
]

-- Unset, or a name of a size.
abbrev pub IsAllowedArena : String → Type 0
IsAllowedArena a = (a ≡ "") ⊎ Memᴰ a ("XS" ∷ "S" ∷ "M" ∷ "L" ∷ "XL" ∷ [])

abbrev pub IsAllowedProfile : String → Type 0
IsAllowedProfile p = Memᴰ p ("tutorial" ∷ "peaceful" ∷ "defensive" ∷ "aggressive" ∷ [])

elem_string→Mem : (s : String) (ts : List String) → elem_string s ts ≡ true → Memᴰ s ts
elem_string→Mem s [] h = absurd cc
elem_string→Mem s (t ∷ ts) h = elim (Bool-cases (eq_string t s)) [
  | inl e ↦ Memᴰ.head (sym ((eq_iff t s).0 e))
  | inr e ↦ Memᴰ.tail (elem_string→Mem s ts (or_right _ _ e h))
]

Mem→elem_string : (s : String) (ts : List String) → Memᴰ s ts → elem_string s ts ≡ true
Mem→elem_string s [] m = elim m [ ]
Mem→elem_string s (t ∷ ts) (Memᴰ.head e) = rw ((eq_iff t s).1 (sym e)) refl
Mem→elem_string s (t ∷ ts) (Memᴰ.tail m) = elim (Bool-cases (eq_string t s)) [
  | inl e ↦ rw e refl
  | inr e ↦ rw e (Mem→elem_string s ts m)
]

pub profile_in_list : (p : String) → valid_profile p ≡ true → IsAllowedProfile p
unfolding valid_profile
profile_in_list p h = elem_string→Mem p _ h

pub profile_not_bad : (p : String) → IsAllowedProfile p → valid_profile p ≡ true
unfolding valid_profile
profile_not_bad p h = Mem→elem_string p _ h

module _ {F : Type 0} ⦃fl : Floats F⦄ where
  -- Unset, or from 0.01 to 0.15.
  abbrev pub IsAllowedDensity : F → Type 0
  IsAllowedDensity d =
      (fl.equal d zero_f ≡ true)
      ⊎ (fl.at_most (fl.literal 1 2) d ≡ true) × (fl.less (fl.literal 15 2) d ≡ false)

  pub budget_in_range :
      (s : Settings F) → bad_budget_of s ≡ false → IsAllowedBudget s.starting_budget
  unfolding bad_budget_of
  budget_in_range s h = elim (Bool-cases (eqb_ℤ s.starting_budget (pos 0))) [
    | inl e ↦ inl (eqb_ℤ→≡ _ _ e)
    | inr e ↦
        let parts = or_false_parts _ _ (set-passes _ _ e h) in
        inr (ltb_false→le _ _ parts.0, ltb_false→le _ _ parts.1)
  ]

  pub budget_not_bad :
      (s : Settings F) → IsAllowedBudget s.starting_budget → bad_budget_of s ≡ false
  unfolding bad_budget_of
  budget_not_bad s (inl e) = rw e refl
  budget_not_bad s (inr (l, u)) = elim (Bool-cases (eqb_ℤ s.starting_budget (pos 0))) [
    | inl e ↦ rw e refl
    | inr e ↦ rw (e, le→ltb_false _ _ l, le→ltb_false _ _ u) refl
  ]

  pub density_in_range :
      (s : Settings F) → bad_density_of s ≡ false → IsAllowedDensity s.barrier_density
  unfolding bad_density_of
  density_in_range s h = elim (Bool-cases (fl.equal s.barrier_density zero_f)) [
    | inl e ↦ inl e
    | inr e ↦
        let parts = or_false_parts _ _ (set-passes _ _ e h) in inr (not-false _ parts.0, parts.1)
  ]

  pub density_not_bad :
      (s : Settings F) → IsAllowedDensity s.barrier_density → bad_density_of s ≡ false
  unfolding bad_density_of
  density_not_bad s (inl e) = rw e refl
  density_not_bad s (inr (l, u)) = elim (Bool-cases (fl.equal s.barrier_density zero_f)) [
    | inl e ↦ rw e refl
    | inr e ↦ rw (e, l, u) refl
  ]

  pub arena_in_range : (s : Settings F) → bad_arena_of s ≡ false → IsAllowedArena s.arena
  unfolding bad_arena_of
  arena_in_range s h = elim (Bool-cases (eq_string s.arena "")) [
    | inl e ↦ inl ((eq_iff _ _).0 e)
    | inr e ↦
        inr (elem_string→Mem s.arena _ (known_size arena_presets s.arena (set-passes _ _ e h)))
  ]

  pub arena_not_bad : (s : Settings F) → IsAllowedArena s.arena → bad_arena_of s ≡ false
  unfolding bad_arena_of lookup
  arena_not_bad s (inl e) = rw e refl
  arena_not_bad s (inr (Memᴰ.head e)) = rw e refl
  arena_not_bad s (inr (Memᴰ.tail (Memᴰ.head e))) = rw e refl
  arena_not_bad s (inr (Memᴰ.tail (Memᴰ.tail (Memᴰ.head e)))) = rw e refl
  arena_not_bad s (inr (Memᴰ.tail (Memᴰ.tail (Memᴰ.tail (Memᴰ.head e))))) = rw e refl
  arena_not_bad s (inr (Memᴰ.tail (Memᴰ.tail (Memᴰ.tail (Memᴰ.tail (Memᴰ.head e)))))) = rw e refl
  arena_not_bad s (inr (Memᴰ.tail (Memᴰ.tail (Memᴰ.tail (Memᴰ.tail (Memᴰ.tail m)))))) = elim m [ ]
