-- ===== src/Sim/World/Inventory/Laws.antt =====
-- The inventory as a map, and its total stock of a variant.
use robocolony.Common.{ℕ, ◌+◌, ◌≤◌, ◌≡◌, ◌==◌, if◌then◌else◌, arith}
use robocolony.Common.{List, [], ◌∷◌, sum_of}
use robocolony.Sim.World.Inventory.{InvEntry, count_of, increment, decrement, consume}

-- One where the variant is `v`.
abbrev pub one_of : ℕ → ℕ → ℕ
one_of v x = if x == v then 1 else 0

-- How often `v` occurs.
abbrev pub occurrences : ℕ → List ℕ → ℕ
occurrences v = sum_of (one_of v)

abbrev pub entry_stock : ℕ → InvEntry → ℕ
entry_stock v e = if e.variant == v then e.count else 0

abbrev pub stock : ℕ → List InvEntry → ℕ
stock v = sum_of (entry_stock v)

pub count_of-increment :
    (inv : List InvEntry) (v x : ℕ) → count_of (increment inv x) v ≡ count_of inv v + one_of v x
unfolding count_of increment
count_of-increment [] v x = ground arith
count_of-increment (e ∷ es) v x = ground (arith, count_of-increment es v x)

pub count_of-le-stock : (inv : List InvEntry) (v : ℕ) → count_of inv v ≤ stock v inv
unfolding count_of
count_of-le-stock [] v = omega arith
count_of-le-stock (e ∷ es) v = ground (arith, count_of-le-stock es v)

pub stock-increment :
    (inv : List InvEntry) (v x : ℕ) → stock v (increment inv x) ≡ stock v inv + one_of v x
unfolding increment
stock-increment [] v x = ground arith
stock-increment (e ∷ es) v x = ground (arith, stock-increment es v x)

-- A removal takes one of the variant, if the map shows one.
pub stock-decrement :
    (inv : List InvEntry) (v x : ℕ)
    → 1 ≤ count_of inv x
    → stock v (decrement inv x) + one_of v x ≡ stock v inv
unfolding count_of decrement
stock-decrement [] v x h = absurd (omega arith)
stock-decrement (e ∷ es) v x h = ground (arith, stock-decrement es v x)

pub count_of-decrement :
    (inv : List InvEntry) (v x : ℕ) → count_of inv v ≤ count_of (decrement inv x) v + one_of v x
unfolding count_of decrement
count_of-decrement [] v x = omega arith
count_of-decrement (e ∷ es) v x = ground (arith, count_of-decrement es v x)

-- Taking out components that the map shows often enough removes each exactly as often as it
-- occurs.
pub stock-consume :
    (inv : List InvEntry) (vs : List ℕ)
    → ((v : ℕ) → occurrences v vs ≤ count_of inv v)
    → (v : ℕ) → stock v (consume inv vs) + occurrences v vs ≡ stock v inv
unfolding consume
stock-consume inv [] h v = omega arith
stock-consume inv (x ∷ xs) h v =
    let first : 1 ≤ count_of inv x = ground (arith, h x) in
    let rest =
      stock-consume (decrement inv x) xs (λ u. omega (arith, h u, count_of-decrement inv u x)) v in
    omega (arith, rest, stock-decrement inv v x first)
