-- ===== src/Sim/Conservation/Sweep.antt =====
-- The sweep makes no component: what falls from a wreck is at most what it held.
use robocolony.Common.{ℕ, zero, suc, ◌+◌, ◌≤◌, ◌≡◌, ◌≢◌, refl, ap, ◌∙◌, true, not, arith, inl, inr}
use robocolony.Common.{
  List, [], ◌∷◌, length, get_or, keep, Bool-cases, Option-cases, get_elem?, set, leb, ◌==◌,
  if◌then◌else◌, some, sum_of, length-set, get_elem?-none,
}
use robocolony.Sim.Catalogue.{variant_none, salvage_drop_percent}
use robocolony.Sim.Grid.{Coord}
use robocolony.Common.{==→≡}
use robocolony.Common.{◌⊎◌, sum_of-append, sum_of-modify_same}
use robocolony.Sim.World.State.{LooseComponent, World, Robot, Base, Stats, Rng}
use robocolony.Sim.World.Access.{drop_at, update_stats, is_destroyed, base_of, allocate_id}
use robocolony.Sim.World.Inventory.Laws.{one_of, occurrences}
use robocolony.Sim.Tick.{
  Controllers, roll_components, drop_one, drop_cargo, salvage, sweep_one, sweep_loop,
  sweep_destroyed,
}
use robocolony.Sim.Conservation.{held, in_base, on_ground, census}
use robocolony.Sim.Conservation.Actions.{empty_slot}

-- What a robot that is not a wreck holds.
abbrev alive_held : ℕ → Robot → ℕ
alive_held v r = if is_destroyed r then 0 else held v r

emptied-destroyed : (r : Robot) → is_destroyed (record r { cargo = variant_none }) ≡ is_destroyed r
unfolding is_destroyed
emptied-destroyed r = refl

-- The robots with an index below `i` are swept: of those only the live ones count.
swept : ℕ → ℕ → List Robot → ℕ
swept v zero rs = sum_of (held v) rs
swept v (suc i) [] = 0
swept v (suc i) (r ∷ rs) = alive_held v r + swept v i rs

module _ (v : ℕ) where
  swept-suc :
      (rs : List Robot) (i : ℕ) (r : Robot)
      → get_elem? rs i ≡ some r
      → swept v (suc i) rs + held v r ≡ swept v i rs + alive_held v r
  unfolding swept
  swept-suc [] i r e = cc
  swept-suc (x ∷ xs) zero r e =
      let q : x ≡ r = cc in omega (arith, ap (held v) q, ap (alive_held v) q)
  swept-suc (x ∷ xs) (suc i) r e = omega (arith, swept-suc xs i r e)

  swept-set :
      (rs : List Robot) (i : ℕ) (r r' : Robot)
      → get_elem? rs i ≡ some r
      → swept v (suc i) (set rs i r') + alive_held v r ≡ swept v (suc i) rs + alive_held v r'
  unfolding swept
  swept-set [] i r r' e = cc
  swept-set (x ∷ xs) zero r r' e = let q : x ≡ r = cc in omega (arith, ap (alive_held v) q)
  swept-set (x ∷ xs) (suc i) r r' e = omega (arith, swept-set xs i r r' e)

  -- Past the end, the swept robots are the ones that the sweep keeps.
  swept-end :
      (rs : List Robot) (i : ℕ)
      → length rs ≤ i
      → swept v i rs ≡ sum_of (held v) (keep (λ r. not (is_destroyed r)) rs)
  unfolding swept
  swept-end [] zero h = refl
  swept-end [] (suc i) h = refl
  swept-end (x ∷ xs) zero h = absurd (omega arith)
  swept-end (x ∷ xs) (suc i) h = ground (arith, swept-end xs i (omega arith))

one_of-chosen :
    (v : ℕ)
    → v ≢ variant_none
    → (vs : List ℕ) (i : ℕ) → one_of v (get_or vs i variant_none) ≤ occurrences v vs
one_of-chosen v real [] i = omega (arith, empty_slot v real)
one_of-chosen v real (x ∷ xs) zero = omega arith
one_of-chosen v real (x ∷ xs) (suc i) = omega (arith, one_of-chosen v real xs i)

-- The wreck with its cargo slot cleared.
abbrev emptied : Robot → Robot
emptied r = record r { cargo = variant_none }

-- What a salvage may do to the list of robots.
abbrev Emptied : List Robot → List Robot → ℕ → Robot → Type 0
Emptied rs rs' i r = (rs' ≡ rs) ⊎ (rs' ≡ set rs i (emptied r))

Emptied-trans :
    (rs rs1 rs2 : List Robot) (i : ℕ) (r : Robot)
    → rs2 ≡ rs1
    → Emptied rs rs1 i r
    → Emptied rs rs2 i r
Emptied-trans rs rs1 rs2 i r e (inl f) = inl (e ∙ f)
Emptied-trans rs rs1 rs2 i r e (inr f) = inr (e ∙ f)

Emptied-swept :
    (v : ℕ) (rs rs' : List Robot) (i : ℕ) (r : Robot)
    → get_elem? rs i ≡ some r
    → is_destroyed r ≡ true
    → Emptied rs rs' i r
    → (swept v (suc i) rs' + held v r ≡ swept v i rs) × (length rs' ≡ length rs)
Emptied-swept v rs rs' i r e d (inl f) = rw f (ground (arith, swept-suc v rs i r e), refl)
Emptied-swept v rs rs' i r e d (inr f) = rw f (
  ground (arith, swept-suc v rs i r e, swept-set v rs i r (emptied r) e, emptied-destroyed r),
  length-set rs i (emptied r),
)

module _ {G : Type 0} (v : ℕ) where
  -- The census without the robots.
  abbrev off_robots : World G → ℕ
  off_robots w = on_ground v w.loose + sum_of (in_base v) w.bases

  off_robots-drop_at :
      (w : World G) (c : Coord) (x : ℕ)
      → ((drop_at w c x).robots ≡ w.robots)
        × (off_robots (drop_at w c x) ≡ off_robots w + one_of v x)
  unfolding drop_at allocate_id
  off_robots-drop_at w c x = (
    refl,
    omega (
      arith,
      sum_of-append (λ (l : LooseComponent). one_of v l.variant) w.loose
          (record { id = w.next_id + 1; coord = c; variant = x } ∷ []),
    ),
  )

  off_robots-update_stats :
      (w : World G) (colony : ℕ) (f : Stats → Stats)
      → ((update_stats w colony f).robots ≡ w.robots)
        × (off_robots (update_stats w colony f) ≡ off_robots w)
  unfolding update_stats
  off_robots-update_stats w colony f = elim (Option-cases (base_of w colony)) [
    | inl e ↦ rw (e, update_stats) (refl, refl)
    | inr (k, e) ↦
        rw (e, update_stats)
          (
            refl,
            omega (
              arith,
              sum_of-modify_same (in_base v) (λ (b : Base). record b { stats = f b.stats })
                  (λ b. refl) w.bases k.0,
            ),
          )
  ]

  module _ ⦃g : Rng G⦄ where
    -- The rolls drop at most what is installed, and nothing if the count stays as it is.
    pub record Rolls (w w' : World G) (n n' : ℕ) (vs : List ℕ) : Type 0 where
      pub robots : w'.robots ≡ w.robots
      pub most : off_robots w' ≤ off_robots w + occurrences v vs
      pub more : n ≤ n'
      pub none_dropped : n' ≡ n → off_robots w' ≡ off_robots w

    roll_components-Rolls :
        (w : World G) (r : Robot) (n : ℕ) (vs : List ℕ)
        → Rolls w (roll_components w r n vs).0 n (roll_components w r n vs).1 vs
    unfolding roll_components
    roll_components-Rolls w r n [] = record {
      robots = refl;
      most = omega arith;
      more = omega arith;
      none_dropped = λ _. refl;
    }
    roll_components-Rolls w r n (x ∷ xs) =
        let w1 = record w { rng = (g.intn w.rng 100).1 } in
        elim (Bool-cases (leb salvage_drop_percent (g.intn w.rng 100).0)) [
          | inl e ↦
              let ih = roll_components-Rolls w1 r n xs in
              rw (e, roll_components)
                (record {
                  robots = ih.robots;
                  most = omega (arith, ih.most);
                  more = ih.more;
                  none_dropped = ih.none_dropped;
                })
          | inr e ↦
              let ih = roll_components-Rolls (drop_at w1 r.coord x) r (n + 1) xs in
              let d = off_robots-drop_at w1 r.coord x in
              rw (e, roll_components)
                (record {
                  robots = ih.robots ∙ d.0;
                  most = omega (arith, ih.most, d.1);
                  more = omega (arith, ih.more);
                  none_dropped = λ z. absurd (omega (arith, ih.more));
                })
        ]

    drop_cargo-Emptied :
        (w : World G) (i : ℕ) (r : Robot) → Emptied w.robots (drop_cargo w i r).robots i r
    unfolding drop_cargo
    drop_cargo-Emptied w i r = elim (Bool-cases (r.cargo == variant_none)) [
      | inl e ↦ rw (e, drop_cargo) (inl refl)
      | inr e ↦
          rw (e, drop_cargo)
            (inr (ap (λ rs. set rs i (emptied r)) (off_robots-drop_at w r.coord r.cargo).0))
    ]

    drop_cargo-census :
        (w : World G) (i : ℕ) (r : Robot)
        → off_robots (drop_cargo w i r) ≤ off_robots w + one_of v r.cargo
    unfolding drop_cargo
    drop_cargo-census w i r = elim (Bool-cases (r.cargo == variant_none)) [
      | inl e ↦ rw (e, drop_cargo) (omega arith)
      | inr e ↦ rw (e, drop_cargo) (omega (arith, (off_robots-drop_at w r.coord r.cargo).1))
    ]

    -- What falls from a wreck is at most what it held; its cargo slot may be cleared.
    salvage-census :
        v ≢ variant_none
        → (w : World G) (i : ℕ) (r : Robot)
        → Emptied w.robots (salvage w i r).robots i r
          × (off_robots (salvage w i r) ≤ off_robots w + held v r)
    unfolding salvage drop_one
    salvage-census real w i r =
        let w1 = drop_cargo w i r in
        let vs = r.blueprint.components in
        let n = (roll_components w1 r 0 vs).1 in
        let w2 = (roll_components w1 r 0 vs).0 in
        let rolls = roll_components-Rolls w1 r 0 vs in
        let cargo = drop_cargo-census w i r in
        let w3 = record w2 { rng = (g.intn w2.rng (length vs)).1 } in
        let roll = (g.intn w2.rng (length vs)).0 in
        let d = off_robots-drop_at w3 r.coord (get_or vs roll variant_none) in
        let emptied =
          Emptied-trans w.robots w1.robots w2.robots i r rolls.robots (drop_cargo-Emptied w i r) in
        elim (Bool-cases (n == 0)) [
          | inl e ↦ elim (Bool-cases (length vs == 0)) [
            | inl e' ↦ rw (e, e', salvage) (emptied, omega (arith, rolls.most))
            | inr e' ↦
                let none_dropped = rolls.none_dropped (==→≡ n 0 e) in
                rw (e, e', salvage)
                  (
                    Emptied-trans w.robots w2.robots _ i r d.0 emptied,
                    omega (arith, d.1, none_dropped, one_of-chosen v real vs roll),
                  )
          ]
          | inr e ↦ rw (e, salvage) (emptied, omega (arith, rolls.most))
        ]

    -- The census with the robots below `i` swept.
    abbrev partial : ℕ → World G → ℕ
    partial i w = off_robots w + swept v i w.robots

    module _ (real : v ≢ variant_none) {C : Type 0} (ctl : Controllers C) where
      sweep_one-census :
          (w : World G) (c : C) (i : ℕ) (r : Robot)
          → get_elem? w.robots i ≡ some r
          → (partial (suc i) (sweep_one ctl w c i r).0 ≤ partial i w)
            × (length (sweep_one ctl w c i r).0.robots ≡ length w.robots)
      unfolding sweep_one
      sweep_one-census w c i r e = elim (Bool-cases (is_destroyed r)) [
        | inl d ↦
            let w' = salvage w i r in
            let s = salvage-census real w i r in
            let u =
              off_robots-update_stats w' r.colony
                (λ (s : Stats). record s { losses = s.losses + 1 }) in
            let q = Emptied-swept v w.robots w'.robots i r e d s.0 in
            rw (d, sweep_one)
              (
                omega (arith, u.1, ap (swept v (suc i)) u.0, s.1, q.0),
                ap (λ rs. length rs) u.0 ∙ q.1,
              )
        | inr d ↦ rw (d, sweep_one) (ground (arith, swept-suc v w.robots i r e), refl)
      ]

      -- The census of the robots that the sweep keeps.
      abbrev kept : World G → ℕ
      kept w = off_robots w + sum_of (held v) (keep (λ r. not (is_destroyed r)) w.robots)

      sweep_loop-census :
          (k : ℕ) (w : World G) (c : C) (i : ℕ)
          → length w.robots ≤ i + k
          → kept (sweep_loop ctl k w c i).0 ≤ partial i w
      unfolding sweep_loop
      sweep_loop-census zero w c i h = omega (arith, swept-end v w.robots i (omega arith))
      sweep_loop-census (suc k) w c i h = elim (Option-cases (get_elem? w.robots i)) [
        | inl e ↦
            rw (e, sweep_loop) (omega (arith, swept-end v w.robots i (get_elem?-none w.robots i e)))
        | inr (r, e) ↦
            let one = sweep_one-census w c i r e in
            let next = sweep_one ctl w c i r in
            rw (e, sweep_loop)
              (omega
                (arith, one.0, sweep_loop-census k next.0 next.1 (suc i) (omega (arith, one.1))))
      ]

      -- The sweep makes no component: the census of a variant does not grow.
      pub sweep_destroyed-census :
          (w : World G) (c : C) → census v (sweep_destroyed ctl w c).0 ≤ census v w
      unfolding sweep_destroyed swept
      sweep_destroyed-census w c =
          omega (arith, sweep_loop-census (length w.robots) w c 0 (omega arith))
