-- ===== src/Sim/Production/Covers.antt =====
-- `covers` decides whether the inventory holds the components of a blueprint.
use robocolony.Common.{ℕ, ◌+◌, ◌≤◌, ◌≡◌, ◌↔◌, ◌⊎◌, inl, inr, refl, true, false, ltb, arith}
use robocolony.Common.{List, [], ◌∷◌, length}
use robocolony.Sim.Blueprint.{Blueprint}
use robocolony.Sim.World.Inventory.{InvEntry, count_of, increment}
use robocolony.Sim.World.Inventory.Laws.{occurrences, count_of-increment}
use robocolony.Sim.Production.{covers_from, covers}

-- Each variant that still occurs fits beside what is used already.
abbrev Fits : List InvEntry → List InvEntry → List ℕ → Type 0
Fits inv used vs =
    (v : ℕ) → (occurrences v vs ≡ 0) ⊎ (count_of used v + occurrences v vs ≤ count_of inv v)

covers_from→Fits :
    (inv used : List InvEntry) (vs : List ℕ) → covers_from inv used vs ≡ true → Fits inv used vs
unfolding covers_from
covers_from→Fits inv used [] h v = inl refl
covers_from→Fits inv used (x ∷ xs) h v =
    let first : ltb (count_of inv x) (count_of (increment used x) x) ≡ false = ground arith in
    let rest = covers_from→Fits inv (increment used x) xs (ground arith) v in
    ground (arith, first, rest, count_of-increment used v x, count_of-increment used x x)

Fits→covers_from :
    (inv used : List InvEntry) (vs : List ℕ) → Fits inv used vs → covers_from inv used vs ≡ true
unfolding covers_from
Fits→covers_from inv used [] h = refl
Fits→covers_from inv used (x ∷ xs) h =
    let next : Fits inv (increment used x) xs =
      λ v. ground (arith, h v, count_of-increment used v x) in
    ground
      (arith, h x, count_of-increment used x x, Fits→covers_from inv (increment used x) xs next)

-- A blueprint is covered exactly if it has a component and the inventory counts each variant at
-- least as often as the blueprint lists it.
pub covers_iff :
    (inv : List InvEntry) (bp : Blueprint)
    → (covers inv bp ≡ true)
      ↔ ((1 ≤ length bp.components) × ((v : ℕ) → occurrences v bp.components ≤ count_of inv v))
unfolding covers count_of
covers_iff inv bp = (
  λ h.
      let all : covers_from inv [] bp.components ≡ true = ground arith in
      (ground arith, λ v. ground (arith, covers_from→Fits inv [] bp.components all v)),
  λ h.
      ground (arith, h.0, Fits→covers_from inv [] bp.components (λ v. inr (ground (arith, h.1 v)))),
)
