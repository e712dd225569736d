-- ===== src/Sim/World/Access/Laws.antt =====
-- The accessors: `SetTerrain` and `At`, and the lookups by colony and id.
use robocolony.Common.{ℕ, suc, ◌+◌, ◌*◌, ◌<◌, ◌≡◌, ap, true, arith}
use robocolony.Common.{pos, pos_part, List, [], ◌∷◌, some, get_elem?}
use robocolony.Common.{◌==◌, Bool-cases, ◌∙◌, sym}
use robocolony.Common.{subst, IsTail, IsTail-start, IsTail-cons, IsTail-head, inl, inr}
use robocolony.Sim.Grid.{Coord}
use robocolony.Sim.World.State.{World, Base}
use robocolony.Sim.World.Access.{inside, index, base_from, base_of}

row_below : (w x y y' : ℕ) → x < w → y < y' → y * w + x < y' * w
row_below w x y y' p q = grind arith

unique_offset : (w x y x' y' : ℕ) → x < w → x' < w → y * w + x ≡ y' * w + x' → (x ≡ x') × (y ≡ y')
unique_offset w x y x' y' p q e = ground (arith, row_below w x y y', row_below w x' y' y)

module _ {G : Type 0} (w : World G) where
  -- A cell of the arena, as natural numbers.
  pub record Inside (c : Coord) : Type 0 where
    pub col : ℕ
    pub row : ℕ
    pub x_eq : c.x ≡ pos col
    pub y_eq : c.y ≡ pos row
    pub col_lt : col < w.width
    pub row_lt : row < w.height

  pub inside→Inside : (c : Coord) → inside w c ≡ true → Inside c
  unfolding inside
  inside→Inside c h = record {
    col = pos_part c.x;
    row = pos_part c.y;
    x_eq = ground arith;
    y_eq = ground arith;
    col_lt = ground arith;
    row_lt = ground arith;
  }

  pub index-lt : (c : Coord) → inside w c ≡ true → index w c < w.height * w.width
  unfolding index
  index-lt c h =
      let i = inside→Inside c h in rw (i.x_eq, i.y_eq) (in_range i.col i.row i.col_lt i.row_lt)
    where
      in_range : (x y : ℕ) → x < w.width → y < w.height → y * w.width + x < w.height * w.width
      in_range x y p q = grind arith

  -- Two cells of the arena with one offset are the same cell.
  pub index_inj :
      (a b : Coord)
      → inside w a ≡ true
      → inside w b ≡ true
      → index w a ≡ index w b
      → (a.x ≡ b.x) × (a.y ≡ b.y)
  unfolding index
  index_inj a b p q e =
      let i = inside→Inside a p in
      let j = inside→Inside b q in
      let f = unique_offset w.width i.col i.row j.col j.row i.col_lt j.col_lt (ground arith) in
      (i.x_eq ∙ ap pos f.0 ∙ sym j.x_eq, i.y_eq ∙ ap pos f.1 ∙ sym j.y_eq)

module _ (colony : ℕ) (all : List Base) where
  base_from-found :
      (i : ℕ) (bs : List Base)
      → IsTail all i bs
      → {k : ℕ} {b : Base} → base_from colony i bs ≡ some (k, b)
      → (get_elem? all k ≡ some b) × (b.colony ≡ colony)
  unfolding base_from
  base_from-found i [] t e = cc
  base_from-found i (b ∷ bs) t {k} {b = b'} e = elim (Bool-cases (b.colony == colony)) [
    | inl y ↦
        let q : some (i, b) ≡ some (k, b') = rw (y, base_from) at e in
        let qi : i ≡ k = ground arith in
        let qb : b ≡ b' = cc in
        (
          subst (λ n. get_elem? all n ≡ some b') qi
              (subst (λ a. get_elem? all i ≡ some a) qb (IsTail-head t)),
          subst (λ a. a.colony ≡ colony) qb (ground arith),
        )
    | inr n ↦ base_from-found (suc i) bs (IsTail-cons t) (rw (n, base_from) at e)
  ]

-- The base that a lookup finds stands in the list at the index found, and is of the colony.
pub base_of-found :
    {G : Type 0} (w : World G) (colony : ℕ) {k : ℕ} {b : Base}
    → base_of w colony ≡ some (k, b)
    → (get_elem? w.bases k ≡ some b) × (b.colony ≡ colony)
unfolding base_of
base_of-found w colony e = base_from-found colony w.bases 0 w.bases (IsTail-start w.bases) e
