-- ===== src/Sim/Conservation/Production.antt =====
-- Production keeps the census: what a base takes from its inventory is what it assembles and
-- releases.
use robocolony.Common.{
  ℕ, zero, suc, ◌+◌, ◌-◌, ◌≤◌, ◌<◌, ◌≡◌, ◌≢◌, refl, ◌∙◌, Bool, true, false, arith, inl, inr,
}
use robocolony.Common.{
  List, [], ◌∷◌, length, get_or, keep, All, Bool-cases, get_elem?, ltb, ◌==◌, some,
}
use robocolony.Common.{sum_of-set, sum_of-append}
use robocolony.Sim.Grid.{heading_count}
use robocolony.Sim.Catalogue.{variant_none}
use robocolony.Sim.Blueprint.{Blueprint}
use robocolony.Sim.Speed.{build_ticks}
use robocolony.Sim.World.State.{World, Base, Rng}
use robocolony.Sim.World.Access.{allocate_id}
use robocolony.Sim.World.Inventory.{consume}
use robocolony.Sim.World.Inventory.Laws.{occurrences, stock-consume}
use robocolony.Sim.Production.{
  covers, put_base, new_robot, build_event, idle_event, idle_build, spawn, advance_build, buildable,
  launch, start_build, produce,
}
use robocolony.Sim.Production.Covers.{covers_iff}
use robocolony.Sim.Conservation.{held, in_base, census, census-emit}
use robocolony.Sim.Conservation.Actions.{empty_slot}

-- The blueprints kept by a test pass it, and so does the one chosen among them.
keep-All {ℓ} : {A : Type ℓ} (p : A → Bool) (xs : List A) → All (λ x. p x ≡ true) (keep p xs)
keep-All p [] = tt
keep-All p (x ∷ xs) = elim (Bool-cases (p x)) [
  | inl e ↦ rw e (e, keep-All p xs)
  | inr e ↦ rw e (keep-All p xs)
]

All-get_or {ℓ κ} :
    {A : Type ℓ} (P : A → Type κ) (xs : List A) (i : ℕ) (d : A) → All P xs → P d → P (get_or xs i d)
All-get_or P [] i d h p = p
All-get_or P (x ∷ xs) zero d h p = h.0
All-get_or P (x ∷ xs) (suc i) d h p = All-get_or P xs i d h.1 p

build_ticks-pos : (bp : Blueprint) → 1 ≤ build_ticks bp
unfolding build_ticks
build_ticks-pos bp = omega arith

module _ {G : Type 0} (v : ℕ) where
  census-put_base :
      (w : World G) (k : ℕ) (b b' : Base)
      → get_elem? w.bases k ≡ some b
      → census v (put_base w k b') + in_base v b ≡ census v w + in_base v b'
  census-put_base w k b b' e = omega (arith, sum_of-set (in_base v) w.bases k b b' e)

  module _ ⦃g : Rng G⦄ (real : v ≢ variant_none) where
    spawn-census :
        (w : World G) (b : Base) (bp : Blueprint)
        → census v (spawn w b bp) ≡ census v w + occurrences v bp.components
    unfolding spawn allocate_id
    spawn-census w b bp =
        let r = new_robot (w.next_id + 1) (g.intn w.rng heading_count).0 b bp in
        census-emit v _ (build_event b r)
        ∙ omega (arith, sum_of-append (held v) w.robots (r ∷ []), empty_slot v real)

    advance_build-census :
        (w : World G) (k : ℕ) (b : Base)
        → get_elem? w.bases k ≡ some b
        → 0 < b.build.ticks
        → census v (advance_build w k b) ≡ census v w
    unfolding advance_build
    advance_build-census w k b e h = elim (Bool-cases (b.build.ticks - 1 == 0)) [
      | inl q ↦
          let b' = record b { stalled = false; build = idle_build } in
          rw (q, advance_build)
            (spawn-census (put_base w k b') b b.build.blueprint
              ∙ ground (arith, census-put_base w k b b' e))
      | inr q ↦
          let b' = record b {
            stalled = false;
            build = record { blueprint = b.build.blueprint; ticks = b.build.ticks - 1 };
          } in
          rw (q, advance_build) (ground (arith, census-put_base w k b b' e))
    ]

    launch-census :
        (w : World G) (k : ℕ) (b : Base) (bps : List Blueprint)
        → get_elem? w.bases k ≡ some b
        → ltb 0 b.build.ticks ≡ false
        → All (λ bp. covers b.inventory bp ≡ true) bps
        → census v (launch w k b bps) ≡ census v w
    unfolding launch
    launch-census w k b [] e h c = elim (Bool-cases b.stalled) [
      | inl q ↦ rw (q, launch) refl
      | inr q ↦
          let b' = record b { stalled = true } in
          rw (q, launch)
            (census-emit v (put_base w k b') (idle_event b)
              ∙ omega (arith, census-put_base w k b b' e))
    ]
    launch-census w k b (first ∷ rest) e h c =
        let bp = get_or (first ∷ rest) (g.intn w.rng (length (first ∷ rest))).0 first in
        let fits = (covers_iff b.inventory bp).0 (All-get_or _ (first ∷ rest) _ first c c.0) in
        let b' = record b {
          stalled = false;
          inventory = consume b.inventory bp.components;
          build = record { blueprint = bp; ticks = build_ticks bp };
        } in
        ground (
          arith,
          census-put_base w k b b' e,
          stock-consume b.inventory bp.components fits.1 v,
          build_ticks-pos bp,
        )

    -- A round of production of a base of the world keeps the census of every variant but the empty
    -- one.
    pub produce-census :
        (w : World G) (k : ℕ) (b : Base)
        → get_elem? w.bases k ≡ some b
        → census v (produce w k b) ≡ census v w
    unfolding produce start_build
    produce-census w k b e = elim (Bool-cases (ltb 0 b.build.ticks)) [
      | inl q ↦ rw (q, produce) (advance_build-census w k b e (ground arith))
      | inr q ↦
          rw (q, produce)
            (launch-census w k b (buildable b) e q (keep-All (covers b.inventory) b.blueprints))
    ]
