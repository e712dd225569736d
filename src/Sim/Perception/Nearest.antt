-- ===== src/Sim/Perception/Nearest.antt =====
-- The loose component that a robot picks up.
use robocolony.Common.{
  ℕ, suc, ◌+◌, ◌<◌, ◌≤◌, ◌≡◌, ◌⊎◌, refl, ◌&&◌, ◌||◌, ◌==◌, ltb, arith, inl, inr,
}
use robocolony.Common.{List, [], ◌∷◌, Option, none, some, get_elem?, Bool-cases, subst, length}
use robocolony.Common.{IsTail, IsTail-start, IsTail-cons, IsTail-head, AllBelow, AllBelow-suc}
use robocolony.Sim.Grid.{Coord, chebyshev}
use robocolony.Sim.World.State.{World, Robot, LooseComponent}
use robocolony.Sim.World.Access.{interact_range}
use robocolony.Sim.Perception.{nearer, nearest_from, component_in_reach, without_distance}

module _ (c : Coord) (all : List LooseComponent) where
  -- `a` is picked before `b`, or ties with it: it is nearer, or as near with an id that is no greater.
  abbrev pub Before : LooseComponent → LooseComponent → Type 0
  Before a b =
      (chebyshev c a.coord < chebyshev c b.coord)
      ⊎ (chebyshev c a.coord ≡ chebyshev c b.coord) × (a.id ≤ b.id)

  -- Among the components with an index below `n`, the one with index `j` is `b`, it is in reach,
  -- and it comes before every other one in reach.
  pub record IsNearest (n j : ℕ) (b : LooseComponent) : Type 0 where
    pub found : get_elem? all j ≡ some b
    pub reach : chebyshev c b.coord ≤ interact_range
    pub first : AllBelow (λ l. chebyshev c l.coord ≤ interact_range → Before b l) all n

  abbrev Best : ℕ → Option (ℕ × LooseComponent × ℕ) → Type 0
  Best n none = AllBelow (λ l. interact_range < chebyshev c l.coord) all n
  Best n (some (j, b, d)) = IsNearest n j b × (d ≡ chebyshev c b.coord)

  nearer-Best :
      (i : ℕ) (l : LooseComponent) (best : Option (ℕ × LooseComponent × ℕ))
      → get_elem? all i ≡ some l
      → Best i best
      → Best (suc i) (nearer i l (chebyshev c l.coord) best)
  unfolding nearer
  nearer-Best i l none e h = elim (Bool-cases (ltb interact_range (chebyshev c l.coord))) [
    | inl far ↦ rw (far, nearer) (AllBelow-suc _ all i l e (ground arith) h)
    | inr near ↦
        rw (near, nearer)
          (
            record {
              found = e;
              reach = ground arith;
              first =
                  AllBelow-suc _ all i l e (λ _. inr (refl, omega arith))
                    (λ k a b g t. absurd (omega (arith, h k a b g)));
            },
            refl,
          )
  ]
  nearer-Best i l (some (j, b, d)) e h =
      elim (Bool-cases (ltb interact_range (chebyshev c l.coord))) [
        | inl far ↦
            rw (far, nearer)
              (
                record {
                  found = h.0.found;
                  reach = h.0.reach;
                  first = AllBelow-suc _ all i l e (λ t. absurd (ground arith)) h.0.first;
                },
                h.1,
              )
        | inr near ↦
            elim (Bool-cases
              (ltb (chebyshev c l.coord) d || (chebyshev c l.coord == d) && ltb l.id b.id)) [
                | inl better ↦
                    rw (near, better, nearer)
                      (
                        record {
                          found = e;
                          reach = ground arith;
                          first =
                              AllBelow-suc _ all i l e (λ _. inr (refl, omega arith))
                                (λ k a m g t. ground (arith, h.0.first k a m g t));
                        },
                        refl,
                      )
                | inr worse ↦
                    rw (near, worse, nearer)
                      (
                        record {
                          found = h.0.found;
                          reach = h.0.reach;
                          first = AllBelow-suc _ all i l e (λ _. ground arith) h.0.first;
                        },
                        h.1,
                      )
              ]
      ]

  nearest_from-Best :
      (i : ℕ) (ls : List LooseComponent) (best : Option (ℕ × LooseComponent × ℕ))
      → IsTail all i ls
      → Best i best
      → Best (i + length ls) (nearest_from c i ls best)
  unfolding nearest_from
  nearest_from-Best i [] best t h = let e : i ≡ i + 0 = omega arith in subst (λ n. Best n best) e h
  nearest_from-Best i (l ∷ ls) best t h =
      let e : suc i + length ls ≡ i + suc (length ls) = omega arith in
      let best' = nearer i l (chebyshev c l.coord) best in
      subst (λ n. Best n (nearest_from c (suc i) ls best')) e
        (nearest_from-Best (suc i) ls best' (IsTail-cons t)
          (nearer-Best i l best (IsTail-head t) h))

  -- What the search says of the list: a nearest component in reach, or that none is in reach.
  abbrev pub Picks : Option (ℕ × LooseComponent) → Type 0
  Picks none = AllBelow (λ l. interact_range < chebyshev c l.coord) all (length all)
  Picks (some (j, b)) = IsNearest (length all) j b

  Best-Picks :
      (best : Option (ℕ × LooseComponent × ℕ))
      → Best (length all) best
      → Picks (without_distance best)
  Best-Picks none h = h
  Best-Picks (some (j, b, d)) h = h.0

-- `componentInReach` returns a loose component within reach of the robot, the nearest one and of
-- equally near ones that with the lowest id; it returns none only where none is within reach.
pub component_in_reach-Picks :
    {G : Type 0} (w : World G) (r : Robot) → Picks r.coord w.loose (component_in_reach w r)
unfolding component_in_reach
component_in_reach-Picks w r =
    let e : 0 + length w.loose ≡ length w.loose = omega arith in
    Best-Picks r.coord w.loose _ (
      subst (λ n. Best r.coord w.loose n (nearest_from r.coord 0 w.loose none)) e
        (nearest_from-Best r.coord w.loose 0 w.loose none (IsTail-start w.loose)
          (λ k l b. absurd (omega arith))))
