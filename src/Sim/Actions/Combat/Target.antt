-- ===== src/Sim/Actions/Combat/Target.antt =====
-- The target of an attack.
use robocolony.Common.{
  ℕ, suc, ◌+◌, length, subst, ◌≤◌, ◌≡◌, ◌≢◌, Bool, true, false, not, ◌||◌, ◌==◌, ltb, arith, inl,
  inr,
}
use robocolony.Common.{List, [], ◌∷◌, Option, none, some, get_elem?, Bool-cases}
use robocolony.Common.{IsTail, IsTail-start, IsTail-cons, IsTail-head, AllBelow, AllBelow-suc}
use robocolony.Sim.Grid.{Coord, eq_coord}
use robocolony.Sim.World.State.{World, Robot}
use robocolony.Sim.World.Access.{is_destroyed}
use robocolony.Sim.Actions.Combat.{closer_target, enemy_from, enemy_at}

-- The robots that the loop passes over.
abbrev is_skipped : ℕ → Coord → Robot → Bool
is_skipped colony c o = o.colony == colony || not (eq_coord o.coord c) || is_destroyed o

-- A live robot of another colony on the cell.
abbrev pub is_target : ℕ → Coord → Robot → Bool
is_target colony c o = not (is_skipped colony c o)

pub target-colony :
    (colony : ℕ) (c : Coord) (t : Robot) → is_target colony c t ≡ true → t.colony ≢ colony
target-colony colony c t h e = ground arith

true-ne-false : {b : Bool} → b ≡ true → b ≡ false → ⊥
true-ne-false p q = cc

module _ (colony : ℕ) (c : Coord) (all : List Robot) where
  -- Among the robots with an index below `n`, the one with index `j` is `b`, it is a target, and
  -- no target has a lower id.
  pub record IsFirst (n j : ℕ) (b : Robot) : Type 0 where
    pub found : get_elem? all j ≡ some b
    pub target : is_target colony c b ≡ true
    pub lowest : AllBelow (λ o. is_target colony c o ≡ true → b.id ≤ o.id) all n

  abbrev pub Best : ℕ → Option (ℕ × Robot) → Type 0
  Best n none = AllBelow (λ o. is_target colony c o ≡ false) all n
  Best n (some (j, b)) = IsFirst n j b

  closer_target-Best :
      (i : ℕ) (o : Robot) (best : Option (ℕ × Robot))
      → get_elem? all i ≡ some o
      → Best i best
      → Best (suc i) (closer_target colony c i o best)
  unfolding closer_target
  closer_target-Best i o none e h = elim (Bool-cases (is_skipped colony c o)) [
    | inl s ↦ rw (s, closer_target) (AllBelow-suc _ all i o e (rw s) h)
    | inr s ↦
        rw (s, closer_target)
          (record {
            found = e;
            target = rw s;
            lowest =
                AllBelow-suc _ all i o e (λ _. omega arith)
                  (λ k a l g t. absurd (true-ne-false t (h k a l g)));
          })
  ]
  closer_target-Best i o (some (j, b)) e h = elim (Bool-cases (is_skipped colony c o)) [
    | inl s ↦
        rw (s, closer_target)
          (record {
            found = h.found;
            target = h.target;
            lowest = AllBelow-suc _ all i o e (λ t. absurd (true-ne-false t (rw s))) h.lowest;
          })
    | inr s ↦ elim (Bool-cases (ltb o.id b.id)) [
      | inl lower ↦
          rw (s, lower, closer_target)
            (record {
              found = e;
              target = rw s;
              lowest =
                  AllBelow-suc _ all i o e (λ _. omega arith)
                    (λ k a l g t. ground (arith, h.lowest k a l g t));
            })
      | inr upper ↦
          rw (s, upper, closer_target)
            (record {
              found = h.found;
              target = h.target;
              lowest = AllBelow-suc _ all i o e (λ _. ground arith) h.lowest;
            })
    ]
  ]

  enemy_from-Best :
      (i : ℕ) (os : List Robot) (best : Option (ℕ × Robot))
      → IsTail all i os
      → Best i best
      → Best (i + length os) (enemy_from colony c i os best)
  unfolding enemy_from
  enemy_from-Best i [] best t h = let e : i ≡ i + 0 = omega arith in subst (λ n. Best n best) e h
  enemy_from-Best i (o ∷ os) best t h =
      let e : suc i + length os ≡ i + suc (length os) = omega arith in
      subst (λ n. Best n (enemy_from colony c (suc i) os (closer_target colony c i o best))) e
        (enemy_from-Best (suc i) os (closer_target colony c i o best) (IsTail-cons t)
          (closer_target-Best i o best (IsTail-head t) h))

-- `enemyAt` returns a live robot of another colony on the cell, and of those the one with the
-- lowest id; it returns none only where there is no such robot. So no shot hits a friend or a
-- wreck.
pub enemy_at-Best :
    {G : Type 0} (w : World G) (colony : ℕ) (c : Coord)
    → Best colony c w.robots (length w.robots) (enemy_at w colony c)
unfolding enemy_at
enemy_at-Best w colony c =
    let e : 0 + length w.robots ≡ length w.robots = omega arith in
    subst (λ n. Best colony c w.robots n (enemy_at w colony c)) e
      (enemy_from-Best colony c w.robots 0 w.robots none (IsTail-start w.robots)
        (λ k o l. absurd (omega arith)))

-- The robot that `enemyAt` returns stands in the list at the index returned, and is a target.
pub enemy_at-found :
    {G : Type 0} (w : World G) (colony : ℕ) (c : Coord) {j : ℕ} {t : Robot}
    → enemy_at w colony c ≡ some (j, t)
    → (get_elem? w.robots j ≡ some t) × (is_target colony c t ≡ true)
enemy_at-found w colony c {j} {t} e =
    let b = subst (Best colony c w.robots (length w.robots)) e (enemy_at-Best w colony c) in
    (b.found, b.target)
