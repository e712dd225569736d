-- ===== src/Sim/Catalogue.antt =====
-- The component catalogue and the balance tables of internal/sim/component.go. A `Variant` is a
-- byte; the catalogue's variants are 1 to 13, and any other value is unknown.
use robocolony.Common.{◌≡◌, ◌<◌, arith}
use robocolony.Common.{
  ℕ, Bool, false, List, [], ◌∷◌, Option, none, some, ◌==◌, String, if◌then◌else◌,
}

-- `ComponentKind`, in the order of the source.
abbrev pub kind_locomotion : ℕ
kind_locomotion = 0

abbrev pub kind_armor : ℕ
kind_armor = 1

abbrev pub kind_manipulator : ℕ
kind_manipulator = 2

abbrev pub kind_radar : ℕ
kind_radar = 3

abbrev pub kind_weapon : ℕ
kind_weapon = 4

abbrev pub kind_count : ℕ
kind_count = 5

-- `Variant`, in the order of the source. `variant_none` is an empty cargo slot.
abbrev pub variant_none : ℕ
variant_none = 0

abbrev pub tracks : ℕ
tracks = 1

abbrev pub medium_armor : ℕ
medium_armor = 2

abbrev pub manipulator : ℕ
manipulator = 3

abbrev pub parts_radar : ℕ
parts_radar = 4

abbrev pub laser : ℕ
laser = 5

abbrev pub light_armor : ℕ
light_armor = 6

abbrev pub heavy_armor : ℕ
heavy_armor = 7

abbrev pub cannon : ℕ
cannon = 8

abbrev pub auto_gun : ℕ
auto_gun = 9

abbrev pub legs : ℕ
legs = 10

abbrev pub anti_grav : ℕ
anti_grav = 11

abbrev pub enemy_radar : ℕ
enemy_radar = 12

abbrev pub base_radar : ℕ
base_radar = 13

pub record Component : Type 0 where
  pub variant : ℕ
  pub kind : ℕ
  pub name : String
  pub mass : ℕ
  pub value : ℕ

abbrev pub component_row : ℕ → ℕ → String → ℕ → ℕ → Component
component_row v k n m c = record { variant = v; kind = k; name = n; mass = m; value = c }

abbrev pub catalogue : List Component
catalogue =
    component_row tracks kind_locomotion "tracks" 30 30
    ∷ component_row legs kind_locomotion "legs" 24 40
    ∷ component_row anti_grav kind_locomotion "anti-gravity platform" 25 70
    ∷ component_row light_armor kind_armor "light armor" 20 25
    ∷ component_row medium_armor kind_armor "medium armor" 40 40
    ∷ component_row heavy_armor kind_armor "heavy armor" 70 65
    ∷ component_row manipulator kind_manipulator "manipulator" 10 20
    ∷ component_row parts_radar kind_radar "parts radar" 8 25
    ∷ component_row enemy_radar kind_radar "enemy robot radar" 10 35
    ∷ component_row base_radar kind_radar "enemy base radar" 6 20
    ∷ component_row laser kind_weapon "laser" 15 35
    ∷ component_row cannon kind_weapon "projectile cannon" 35 55
    ∷ component_row auto_gun kind_weapon "automatic gun" 20 30
    ∷ []

abbrev pub max_weapons : ℕ
max_weapons = 2

abbrev pub health_base : ℕ
health_base = 20

abbrev pub inventory_score_percent : ℕ
inventory_score_percent = 25

abbrev pub salvage_drop_percent : ℕ
salvage_drop_percent = 40

-- The field `range` of the source is `reach`.
pub record WeaponSpec : Type 0 where
  pub variant : ℕ
  pub reach : ℕ
  pub damage : ℕ
  pub cooldown : ℕ
  pub accuracy : ℕ

abbrev pub weapon_specs : List WeaponSpec
weapon_specs =
    record { variant = laser; reach = 8; damage = 7; cooldown = 6; accuracy = 90 }
    ∷ record { variant = cannon; reach = 6; damage = 26; cooldown = 20; accuracy = 60 }
    ∷ record { variant = auto_gun; reach = 4; damage = 4; cooldown = 2; accuracy = 45 }
    ∷ []

pub record ArmorSpec : Type 0 where
  pub variant : ℕ
  pub health : ℕ

abbrev pub armor_specs : List ArmorSpec
armor_specs =
    record { variant = light_armor; health = 50 }
    ∷ record { variant = medium_armor; health = 100 }
    ∷ record { variant = heavy_armor; health = 180 }
    ∷ []

pub record LocomotionSpec : Type 0 where
  pub variant : ℕ
  pub base_speed : ℕ
  pub mass_per_speed_point : ℕ

abbrev pub locomotion_specs : List LocomotionSpec
locomotion_specs =
    record { variant = tracks; base_speed = 12; mass_per_speed_point = 20 }
    ∷ record { variant = legs; base_speed = 10; mass_per_speed_point = 26 }
    ∷ record { variant = anti_grav; base_speed = 16; mass_per_speed_point = 9 }
    ∷ []

-- The first row of a table whose key is the variant: the loop of the four lookups below.
abbrev pub find_row {ℓ} : {A : Type ℓ} → (A → ℕ) → ℕ → List A → Option A
find_row key v [] = none
find_row key v (s ∷ ss) = if key s == v then some s else find_row key v ss

abbrev pub base_speed_unknown : ℕ
base_speed_unknown = 8

abbrev pub mass_per_speed_point_unknown : ℕ
mass_per_speed_point_unknown = 20

abbrev or_unknown : ℕ → Option LocomotionSpec → LocomotionSpec
or_unknown v (some s) = s
or_unknown v none = record {
  variant = v;
  base_speed = base_speed_unknown;
  mass_per_speed_point = mass_per_speed_point_unknown;
}

unfoldable pub locomotion_stats : ℕ → LocomotionSpec
locomotion_stats v = or_unknown v (find_row (λ (s : LocomotionSpec). s.variant) v locomotion_specs)

unfoldable pub weapon_stats : ℕ → Option WeaponSpec
weapon_stats v = find_row (λ (s : WeaponSpec). s.variant) v weapon_specs

abbrev health_of : Option ArmorSpec → ℕ
health_of (some s) = s.health
health_of none = 0

unfoldable pub armor_health : ℕ → ℕ
armor_health v = health_of (find_row (λ (s : ArmorSpec). s.variant) v armor_specs)

unfoldable pub lookup : ℕ → Option Component
lookup v = find_row (λ (c : Component). c.variant) v catalogue

-- `Variant.Kind`.
unfoldable pub kind : ℕ → Option ℕ
kind v = elim (lookup v) [ some c ↦ some c.kind | none ↦ none ]

-- The test `k, ok := v.Kind(); ok && k == kind` of the loops over a blueprint's components.
unfoldable pub is_kind : ℕ → ℕ → Bool
is_kind k v = elim (kind v) [ some j ↦ j == k | none ↦ false ]

pub kind-lt : (v : ℕ) {k : ℕ} → kind v ≡ some k → k < kind_count
unfolding kind lookup
kind-lt v h = ground arith

pub is_kind_lem : (j v : ℕ) {k : ℕ} → kind v ≡ some k → is_kind j v ≡ (k == j)
unfolding is_kind
is_kind_lem j v h = rw (h, is_kind)
