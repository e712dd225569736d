-- ===== src/Lobby/Match/Clock.antt =====
-- A match's world stays safe, its clock counts its steps, and it ends at the tick that its settings
-- give. A match's world has no duration of its own.
use robocolony.Common.{
  ℕ, zero, suc, ◌+◌, ◌%◌, ◌^◌, ◌≤◌, ◌<◌, min, ◌≡◌, refl, sym, ap, ap₂, subst, ◌∙◌, arith, leb, ◌==◌,
  true, false, not, ◌||◌, inl, inr, Bool-cases, if_true, if_false, length, pos, leb→le, le→leb,
  leb_false→lt, List,
}
use native.Mathlib.Nat.{mod-lt, mod-eq_of_lt}
use robocolony.Sim.Grid.{Coord}
use robocolony.Sim.Catalogue.{catalogue, anti_grav}
use robocolony.Sim.World.State.{World, Rng, LooseComponent}
use robocolony.Sim.World.Access.{allocate_id, drop_at, passable, inside, at, index, next_u64, ended}
use robocolony.Sim.Tick.{step}
use robocolony.Sim.Safety.{IsSafe}
use robocolony.Sim.Safety.Step.{step-IsSafe, step_clock}
use robocolony.Prog.Runtime.{runtime_controllers}
use robocolony.Lobby.Settings.{Floats, Settings, duration_ticks, spawn_every}
use robocolony.Lobby.Match.{Match, on_base, spawn_drop, spawn_resources, advance, step_match}

-- The parts of the world that a spawn leaves alone.
record SameBoard {G : Type 0} (w v : World G) : Type 0 where
  loose : List LooseComponent
  rng : G
  next : ℕ
  same : v ≡ record w { loose = loose; rng = rng; next_id = next }

module _ {G : Type 0} ⦃g : Rng G⦄ where
  spawn_drop-SameBoard : (w : World G) → SameBoard w (spawn_drop w)
  unfolding spawn_drop drop_at allocate_id
  spawn_drop-SameBoard w =
      let (x, r1) = g.intn w.rng w.width in
      let (y, r2) = g.intn r1 w.height in
      let (i, r3) = g.intn r2 (length catalogue) in
      let w' = record w { rng = r3 } in
      let c : Coord = record { x = pos x; y = pos y } in
      elim (Bool-cases (not (passable w' c anti_grav) || on_base c w'.bases)) [
        | inl e ↦ record { loose = w.loose; rng = r3; next = w.next_id; same = if_true _ _ e }
        | inr e ↦ record { loose = _; rng = r3; next = w.next_id + 1; same = if_false _ _ e }
      ]

  spawn-SameBoard : (n : ℕ) (w : World G) → SameBoard w (spawn_resources n w)
  unfolding spawn_resources
  spawn-SameBoard n w = elim (Bool-cases (n == 0 || not (w.tick % n == 0))) [
    | inl e ↦ record { loose = w.loose; rng = w.rng; next = w.next_id; same = if_true _ _ e }
    | inr e ↦
        let s = spawn_drop-SameBoard w in
        record { loose = s.loose; rng = s.rng; next = s.next; same = if_false _ _ e ∙ s.same }
  ]

  SameBoard-IsSafe : (o w v : World G) → SameBoard w v → IsSafe o w → IsSafe o v
  unfolding passable inside at index
  SameBoard-IsSafe o w v b s = subst (IsSafe o) (sym b.same) (record {
    width = s.width;
    height = s.height;
    cells = s.cells;
    robots = s.robots;
    bases = s.bases;
  })

not-ended : {G : Type 0} (w : World G) → w.duration ≡ 0 → ended w ≡ false
unfolding ended
not-ended w e = rw e refl

next_u64-small : (t n : ℕ) → t < n → n < 2 ^ 64 → next_u64 t ≡ suc t
next_u64-small t n p q = mod-eq_of_lt (omega arith) ∙ (let r : t + 1 ≡ suc t = omega arith in r)

module _ {F G : Type 0} ⦃fl : Floats F⦄ ⦃g : Rng G⦄ (o : World G) where
  -- A match as the lobby keeps it: its world is safe on the map of `o` and has no duration, the clock
  -- is not past the end, and the match is over exactly when the clock is at the end.
  pub record IsLive (m : Match F G) : Type 0 where
    pub safe : IsSafe o m.world
    pub no_duration : m.world.duration ≡ 0
    pub within : m.world.tick ≤ duration_ticks m.settings
    pub over : m.finished ≡ leb (duration_ticks m.settings) m.world.tick

  pub duration_ticks-lt : (s : Settings F) → duration_ticks s < 2 ^ 64
  unfolding duration_ticks
  duration_ticks-lt s = mod-lt _ (omega arith)

  pub before_end :
      (m : Match F G) → IsLive m → m.finished ≡ false → m.world.tick < duration_ticks m.settings
  before_end m l e = leb_false→lt _ _ (sym l.over ∙ e)

  -- The parts of the world after a step that the invariants need.
  record Advanced (m : Match F G) : Type 0 where
    safe : IsSafe o (advance m).world
    no_duration : (advance m).world.duration ≡ 0
    tick : (advance m).world.tick ≡ suc m.world.tick

  advance-Advanced : (m : Match F G) → IsLive m → m.finished ≡ false → Advanced m
  unfolding advance
  advance-Advanced m l e =
      let after = step runtime_controllers m.world m.runtime in
      let clock = step_clock runtime_controllers m.world m.runtime l.safe in
      let run = not-ended m.world l.no_duration in
      let b = spawn-SameBoard (spawn_every m.settings) after.0 in
      record {
        safe = SameBoard-IsSafe o _ _ b (step-IsSafe runtime_controllers m.world m.runtime l.safe);
        no_duration = ap (λ (w : World G). w.duration) b.same ∙ clock.1 ∙ l.no_duration;
        tick =
            ap (λ (w : World G). w.tick) b.same
            ∙ clock.0
            ∙ if_false _ _ run
            ∙ next_u64-small _ _ (before_end m l e) (duration_ticks-lt m.settings);
      }

  pub advance-IsLive : (m : Match F G) → IsLive m → m.finished ≡ false → IsLive (advance m)
  unfolding advance
  advance-IsLive m l e =
      let a = advance-Advanced m l e in
      let lt = before_end m l e in
      record {
        safe = a.safe;
        no_duration = a.no_duration;
        within = let t = a.tick in omega arith;
        over = refl;
      }

  advance-settings : (m : Match F G) → (advance m).settings ≡ m.settings
  unfolding advance
  advance-settings m = refl

  pub advance_tick :
      (m : Match F G) → IsLive m → m.finished ≡ false → (advance m).world.tick ≡ suc m.world.tick
  advance_tick m l e = (advance-Advanced m l e).tick

  pub step_match-running : (m : Match F G) → m.finished ≡ false → (step_match m).0 ≡ advance m
  unfolding step_match
  step_match-running m e = rw e refl

  pub step_match-over : (m : Match F G) → m.finished ≡ true → (step_match m).0 ≡ m
  unfolding step_match
  step_match-over m e = rw e refl

  pub step_match-IsLive : (m : Match F G) → IsLive m → IsLive (step_match m).0
  step_match-IsLive m l = elim (Bool-cases m.finished) [
    | inl e ↦ subst IsLive (sym (step_match-over m e)) l
    | inr e ↦ subst IsLive (sym (step_match-running m e)) (advance-IsLive m l e)
  ]

-- The match after a number of ticks of its driver, with no command in between.
unfoldable pub drive : {F G : Type 0} → ⦃fl : Floats F⦄ → ⦃g : Rng G⦄ → ℕ → Match F G → Match F G
drive zero m = m
drive (suc n) m = drive n (step_match m).0

module _ {F G : Type 0} ⦃fl : Floats F⦄ ⦃g : Rng G⦄ (o : World G) where
  -- From any state of a live match, `n` ticks of the driver take the clock `n` ticks on, but not past
  -- the tick that the settings give; and the match is over exactly when the clock has come there.
  pub drive_finishes :
      (n : ℕ) (m : Match F G)
      → IsLive o m
      → ((drive n m).world.tick ≡ min (duration_ticks m.settings) (m.world.tick + n))
        × ((drive n m).finished ≡ leb (duration_ticks m.settings) (m.world.tick + n))
  unfolding drive
  drive_finishes zero m l =
      let w = l.within in
      let same : m.world.tick ≡ m.world.tick + 0 = omega arith in
      (omega arith, l.over ∙ ap (leb (duration_ticks m.settings)) same)
  drive_finishes (suc n) m l = elim (Bool-cases m.finished) [
    | inl e ↦
        let q = step_match-over o m e in
        let rest = drive_finishes n m l in
        let d = duration_ticks m.settings in
        let end : d ≤ m.world.tick = leb→le _ _ (sym l.over ∙ e) in
        let stays : min d (m.world.tick + n) ≡ min d (m.world.tick + suc n) = omega arith in
        let before = le→leb d (m.world.tick + n) (omega arith) in
        let after = le→leb d (m.world.tick + suc n) (omega arith) in
        (
          ap (λ x. (drive n x).world.tick) q ∙ rest.0 ∙ stays,
          ap (λ x. (drive n x).finished) q ∙ rest.1 ∙ before ∙ sym after,
        )
    | inr e ↦
        let q = step_match-running o m e in
        let rest = drive_finishes n (advance m) (advance-IsLive o m l e) in
        let tick = advance_tick o m l e in
        let next : (advance m).world.tick + n ≡ m.world.tick + suc n = omega arith in
        let same : duration_ticks (advance m).settings ≡ duration_ticks m.settings =
          ap (λ (s : Settings F). duration_ticks s) (advance-settings o m) in
        (
          ap (λ x. (drive n x).world.tick) q ∙ rest.0 ∙ ap₂ min same next,
          ap (λ x. (drive n x).finished) q ∙ rest.1 ∙ ap₂ leb same next,
        )
  ]
