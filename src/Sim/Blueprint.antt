-- ===== src/Sim/Blueprint.antt =====
-- `Blueprint` of internal/sim/component.go: its components, its sums and its validation.
pub mod Validation
use robocolony.Common.{
  ℕ, zero, suc, ◌+◌, Bool, true, false, not, ◌||◌, List, [], ◌∷◌, Option, none, some,
}
use robocolony.Common.{
  ◌==◌, ltb, if◌then◌else◌, String, keep, sum_of, modify, get_or, replicate, ◌⊎◌, inl, inr,
}
use robocolony.Sim.Catalogue.{
  Component, lookup, kind, is_kind, kind_count, max_weapons, armor_health,
}
use robocolony.Sim.Catalogue.{kind_locomotion, kind_armor, kind_radar, kind_weapon, health_base}
use robocolony.Sim.Catalogue.{variant_none}

pub record Blueprint : Type 0 where
  pub id : String
  pub name : String
  pub components : List ℕ
  pub program_id : String

-- The zero value, as the build order of an idle base holds it.
abbrev pub no_blueprint : Blueprint
no_blueprint = record { id = ""; name = ""; components = []; program_id = "" }

-- The weapon variants in slot order.
unfoldable pub weapons : Blueprint → List ℕ
weapons b = keep (is_kind kind_weapon) b.components

-- The errors of `Validate`, with the offending variant or count.
pub data ValidateError : Type 0 where
  err_unknown_component err_locomotion err_armor err_radar_limit err_weapon_limit :
      ℕ → ValidateError

-- The counting loop of `Validate`: it stops at the first variant without a kind.
count_kinds : List ℕ → List ℕ → ValidateError ⊎ List ℕ
count_kinds counts [] = inr counts
count_kinds counts (v ∷ vs) = elim (kind v) [
  | none ↦ inl (err_unknown_component v)
  | some k ↦ count_kinds (modify counts k suc) vs
]

check_counts : List ℕ → Option ValidateError
check_counts counts =
    let n = λ (k : ℕ). get_or counts k 0 in
    if not (n kind_locomotion == 1)
    then some (err_locomotion (n kind_locomotion))
    else if not (n kind_armor == 1)
    then some (err_armor (n kind_armor))
    else if ltb 1 (n kind_radar)
    then some (err_radar_limit (n kind_radar))
    else if ltb max_weapons (n kind_weapon)
    then some (err_weapon_limit (n kind_weapon))
    else none

-- `none` is the nil error.
unfoldable pub validate : Blueprint → Option ValidateError
unfolding count_kinds check_counts
validate b = elim (count_kinds (replicate kind_count 0) b.components) [
  | inl e ↦ some e
  | inr counts ↦ check_counts counts
]

unfoldable pub has_kind : ℕ → List ℕ → Bool
has_kind k [] = false
has_kind k (v ∷ vs) = is_kind k v || has_kind k vs

unfoldable pub has : Blueprint → ℕ → Bool
has b k = has_kind k b.components

-- What one component adds to `sum`: nothing if the catalogue does not know it.
abbrev amount : (Component → ℕ) → Option Component → ℕ
amount f (some c) = f c
amount f none = 0

unfoldable pub sum : (Component → ℕ) → Blueprint → ℕ
sum f b = sum_of (λ v. amount f (lookup v)) b.components

unfoldable pub mass : Blueprint → ℕ
mass b = sum (λ c. c.mass) b

unfoldable pub value : Blueprint → ℕ
value b = sum (λ c. c.value) b

unfoldable pub first_of_kind : ℕ → List ℕ → ℕ
first_of_kind k [] = variant_none
first_of_kind k (v ∷ vs) = if is_kind k v then v else first_of_kind k vs

unfoldable pub locomotion_of : Blueprint → ℕ
locomotion_of b = first_of_kind kind_locomotion b.components

unfoldable pub armor_sum : List ℕ → ℕ
armor_sum [] = 0
armor_sum (v ∷ vs) = (if is_kind kind_armor v then armor_health v else 0) + armor_sum vs

unfoldable pub starting_health : Blueprint → ℕ
starting_health b = health_base + armor_sum b.components
