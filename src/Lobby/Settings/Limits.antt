-- ===== src/Lobby/Settings/Limits.antt =====
-- What `validate` lets through.
use robocolony.Common.{
  ℤ, ◌≡◌, refl, pos, ◌+ℤ◌, Bool, true, false, not, ◌↔◌, List, [], ◌∷◌, All, Option, none, some,
  length, leb_ℤ, or_false_parts, arith, ◌≤ℤ◌, lt→leb_false, ltb_false→le, le→ltb_false, String,
  if◌then◌else◌,
}
use robocolony.Lobby.Settings.Ranges.{
  not-false, IsAllowedBudget, IsAllowedDensity, IsAllowedArena, IsAllowedProfile, profile_in_list,
  profile_not_bad, budget_in_range, budget_not_bad, density_in_range, density_not_bad,
  arena_in_range, arena_not_bad,
}
use robocolony.Lobby.Settings.{
  Floats, Settings, SettingsError, validate, check_profiles, valid_profile, zero_f,
}

passes :
    (b : Bool) (e : SettingsError) (o : Option SettingsError)
    → (if b then some e else o) ≡ none
    → (b ≡ false) × (o ≡ none)
passes true e o h = absurd cc
passes false e o h = (refl, h)

passed :
    (b : Bool) (e : SettingsError) (o : Option SettingsError)
    → b ≡ false
    → o ≡ none
    → (if b then some e else o) ≡ none
passed b e o p h = rw p h

positive : (d : ℤ) → leb_ℤ d (pos 0) ≡ false → pos 1 ≤ℤ d
positive d h = ground arith

check_profiles→All :
    (ps : List String) → check_profiles ps ≡ none → All (λ p. IsAllowedProfile p) ps
unfolding check_profiles
check_profiles→All [] h = tt
check_profiles→All (p ∷ ps) h =
    let parts = passes (not (valid_profile p)) _ _ h in
    (profile_in_list p (not-false _ parts.0), check_profiles→All ps parts.1)

All→check_profiles :
    (ps : List String) → All (λ p. IsAllowedProfile p) ps → check_profiles ps ≡ none
unfolding check_profiles
All→check_profiles [] h = refl
All→check_profiles (p ∷ ps) h = rw (profile_not_bad p h.0) (All→check_profiles ps h.1)

module _ {F : Type 0} ⦃fl : Floats F⦄ where
  -- The settings that a lobby may have.
  pub record IsPlayable (s : Settings F) : Type 0 where
    pub duration : pos 1 ≤ℤ s.duration_sec
    pub richness : fl.at_most zero_f s.richness ≡ true
    pub spawn_rate : fl.at_most zero_f s.spawn_per_min ≡ true
    pub spawn_limit : fl.less (fl.literal 120 0) s.spawn_per_min ≡ false
    pub budget : IsAllowedBudget s.starting_budget
    pub density : IsAllowedDensity s.barrier_density
    pub arena : IsAllowedArena s.arena
    pub players : pos 1 ≤ℤ s.max_players
    pub players_limit : s.max_players ≤ℤ pos 8
    pub colonies : s.max_players +ℤ pos (length s.ai) ≤ℤ pos 8
    pub profiles : All (λ p. IsAllowedProfile p) s.ai

  validate→IsPlayable : (s : Settings F) → validate s ≡ none → IsPlayable s
  unfolding validate
  validate→IsPlayable s h =
      let p1 = passes _ _ _ h in
      let p2 = passes _ _ _ p1.1 in
      let p3 = passes _ _ _ p2.1 in
      let p4 = passes _ _ _ p3.1 in
      let p5 = passes _ _ _ p4.1 in
      let p6 = passes _ _ _ p5.1 in
      let p7 = passes _ _ _ p6.1 in
      let p8 = passes _ _ _ p7.1 in
      let spawn = or_false_parts _ _ p3.0 in
      let seats = or_false_parts _ _ p7.0 in
      record {
        duration = positive s.duration_sec p1.0;
        richness = not-false _ p2.0;
        spawn_rate = not-false _ spawn.0;
        spawn_limit = spawn.1;
        budget = budget_in_range s p4.0;
        density = density_in_range s p5.0;
        arena = arena_in_range s p6.0;
        players = ltb_false→le _ _ seats.0;
        players_limit = ltb_false→le _ _ seats.1;
        colonies = ltb_false→le _ _ p8.0;
        profiles = check_profiles→All s.ai p8.1;
      }

  IsPlayable→validate : (s : Settings F) → IsPlayable s → validate s ≡ none
  unfolding validate
  IsPlayable→validate s p =
      let duration : leb_ℤ s.duration_sec (pos 0) ≡ false =
        let d = p.duration in lt→leb_false _ _ (omega arith) in
      rw
        (
          duration,
          p.richness,
          p.spawn_rate,
          p.spawn_limit,
          budget_not_bad s p.budget,
          density_not_bad s p.density,
          arena_not_bad s p.arena,
          le→ltb_false _ _ p.players,
          le→ltb_false _ _ p.players_limit,
          le→ltb_false _ _ p.colonies,
        )
        (All→check_profiles s.ai p.profiles)

  -- `validate` finds no fault exactly in the settings with a duration of at least a second, a richness
  -- and a spawn rate of at least zero, at most 120 spawns per minute, a starting budget of zero or
  -- from 115 to 10000000, a barrier density of zero or from 0.01 to 0.15, an arena that is empty or
  -- one of XS, S, M, L and XL, one to eight player seats, at most eight colonies with the computer
  -- ones, and computer profiles among tutorial, peaceful, defensive and aggressive.
  pub validate-IsPlayable : (s : Settings F) → (validate s ≡ none) ↔ IsPlayable s
  validate-IsPlayable s = (validate→IsPlayable s, IsPlayable→validate s)
