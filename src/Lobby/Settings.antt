-- ===== src/Lobby/Settings.antt =====
-- Match settings: internal/lobby/settings.go, with `Profiles` and `Profile.Valid` of
-- internal/lobby/ai.go. The `float64` of the settings is a type with the operations of `Floats`.
pub mod Limits
pub mod Ranges
use robocolony.Common.{
  ℕ, ◌+◌, ◌*◌, ◌-◌, ◌/◌, ◌%◌, ◌^◌, max, ltb, ◌==◌, ℤ, pos, negsuc, eqb_ℤ, ltb_ℤ, leb_ℤ, Bool, true,
  false, not, ◌&&◌, ◌||◌, if◌then◌else◌, String, pos_part,
}
use robocolony.Common.{◌+ℤ◌, List, [], ◌∷◌, Option, none, some, length}
use robocolony.Common.Assoc.{lookup}
use robocolony.Prog.Catalogue.{eq_string}

-- Go's `float64`: the tests `<`, `<=` and `==`, division, the literal `n / 10^k`, and the
-- conversion to `uint64`.
pub record Floats (F : Type 0) : Type 0 where
  pub less : F → F → Bool
  pub at_most : F → F → Bool
  pub equal : F → F → Bool
  pub divide : F → F → F
  pub literal : ℕ → ℕ → F
  pub to_u64 : F → ℕ

-- `uint64` of a Go `int`.
unfoldable pub u64_of_int : ℤ → ℕ
u64_of_int (pos n) = n % 2 ^ 64
u64_of_int (negsuc n) = (2 ^ 64 - (n + 1) % 2 ^ 64) % 2 ^ 64

-- A profile is its name.
abbrev pub tutorial : String
tutorial = "tutorial"

abbrev pub peaceful : String
peaceful = "peaceful"

abbrev pub defensive : String
defensive = "defensive"

abbrev pub aggressive : String
aggressive = "aggressive"

abbrev pub profiles : List String
profiles = tutorial ∷ peaceful ∷ defensive ∷ aggressive ∷ []

abbrev pub elem_string : String → List String → Bool
elem_string s [] = false
elem_string s (t ∷ ts) = eq_string t s || elem_string s ts

-- `Profile.Valid`: the profiles that `kit` has a case for.
unfoldable pub valid_profile : String → Bool
valid_profile p = elem_string p profiles

pub record Settings (F : Type 0) : Type 0 where
  pub duration_sec : ℤ
  pub richness : F
  pub spawn_per_min : F
  pub max_players : ℤ
  pub seed : ℤ
  pub starting_budget : ℤ
  pub barrier_density : F
  pub arena : String
  pub ai : List String

abbrev pub tick_rate : ℕ
tick_rate = 10

abbrev pub max_spawn_per_min : ℕ
max_spawn_per_min = 120

abbrev pub min_players : ℕ
min_players = 1

abbrev pub max_players_limit : ℕ
max_players_limit = 8

abbrev pub min_starting_budget : ℕ
min_starting_budget = 115

abbrev pub starting_budget_limit : ℕ
starting_budget_limit = 10000000

abbrev pub arena_presets : List (String × ℕ)
arena_presets = ("XS", 32) ∷ ("S", 48) ∷ ("M", 64) ∷ ("L", 96) ∷ ("XL", 128) ∷ []

abbrev pub default_arena : String
default_arena = "M"

-- A missing key of the Go map reads as zero.
abbrev pub size_or : Option ℕ → ℕ → ℕ
size_or none d = d
size_or (some n) d = n

abbrev pub preset_of : String → Option ℕ
preset_of name = lookup eq_string arena_presets name

pub data SettingsError : Type 0 where
  bad_duration bad_richness bad_spawn_rate bad_budget bad_density bad_arena bad_players :
      SettingsError
  too_many_colonies unknown_profile : SettingsError

-- The loop over the profiles.
unfoldable pub check_profiles : List String → Option SettingsError
check_profiles [] = none
check_profiles (p ∷ ps) =
    let rest = check_profiles ps in if not (valid_profile p) then some unknown_profile else rest

module _ {F : Type 0} ⦃fl : Floats F⦄ where
  abbrev pub zero_f : F
  zero_f = fl.literal 0 0

  unfoldable pub colonies : Settings F → ℕ → ℕ
  colonies s members = members + length s.ai

  unfoldable pub arena_size : Settings F → ℕ
  arena_size s = size_or (preset_of s.arena) (size_or (preset_of default_arena) 0)

  unfoldable pub bad_budget_of : Settings F → Bool
  bad_budget_of s =
      not (eqb_ℤ s.starting_budget (pos 0))
      && (ltb_ℤ s.starting_budget (pos min_starting_budget)
          || ltb_ℤ (pos starting_budget_limit) s.starting_budget)

  unfoldable pub bad_density_of : Settings F → Bool
  bad_density_of s =
      not (fl.equal s.barrier_density zero_f)
      && (not (fl.at_most (fl.literal 1 2) s.barrier_density)
          || fl.less (fl.literal 15 2) s.barrier_density)

  unfoldable pub bad_arena_of : Settings F → Bool
  bad_arena_of s = not (eq_string s.arena "") && (size_or (preset_of s.arena) 0 == 0)

  -- The switch, in its order, and the loop after it.
  unfoldable pub validate : Settings F → Option SettingsError
  validate s =
      if leb_ℤ s.duration_sec (pos 0)
      then some bad_duration
      else if not (fl.at_most zero_f s.richness)
      then some bad_richness
      else if not (fl.at_most zero_f s.spawn_per_min)
          || fl.less (fl.literal max_spawn_per_min 0) s.spawn_per_min
      then some bad_spawn_rate
      else if bad_budget_of s
      then some bad_budget
      else if bad_density_of s
      then some bad_density
      else if bad_arena_of s
      then some bad_arena
      else if ltb_ℤ s.max_players (pos min_players) || ltb_ℤ (pos max_players_limit) s.max_players
      then some bad_players
      else if ltb_ℤ (pos max_players_limit) (s.max_players +ℤ pos (length s.ai))
      then some too_many_colonies
      else check_profiles s.ai

  unfoldable pub budget : ℤ → Settings F → ℤ
  budget default_budget s =
      if leb_ℤ s.starting_budget (pos 0) then default_budget else s.starting_budget

  unfoldable pub barriers : Settings F → F
  barriers s = if not (fl.less zero_f s.barrier_density) then fl.literal 8 2 else s.barrier_density

  -- `durationTicks`, a `uint64` product.
  unfoldable pub duration_ticks : Settings F → ℕ
  duration_ticks s = u64_of_int s.duration_sec * tick_rate % 2 ^ 64

  unfoldable pub spawn_every : Settings F → ℕ
  spawn_every s =
      if fl.at_most s.spawn_per_min zero_f
      then 0
      else max 1 (fl.to_u64 (fl.divide (fl.literal (60 * tick_rate) 0) s.spawn_per_min))
