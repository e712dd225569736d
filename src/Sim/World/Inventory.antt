-- ===== src/Sim/World/Inventory.antt =====
-- The map `Base.Inventory` of internal/sim/world.go as a list of entries, one for each key that is
-- present, and its uses in `deposit` and `produce` of internal/sim/tick.go.
pub mod Laws
use robocolony.Common.{ℕ, suc, ◌+◌, ◌-◌, ◌*◌, ◌≡◌, List, [], ◌∷◌, Bool, true, false, ◌==◌, leb}
use robocolony.Common.{if◌then◌else◌, sort_by, sum_of, Option, some, none}
use robocolony.Sim.Catalogue.{lookup}

pub record InvEntry : Type 0 where
  pub variant : ℕ
  pub count : ℕ

-- `inv[v]`: zero where the key is missing.
unfoldable pub count_of : List InvEntry → ℕ → ℕ
count_of [] v = 0
count_of (e ∷ es) v = if e.variant == v then e.count else count_of es v

-- `inv[v]++`.
unfoldable pub increment : List InvEntry → ℕ → List InvEntry
increment [] v = record { variant = v; count = 1 } ∷ []
increment (e ∷ es) v =
    if e.variant == v then record e { count = e.count + 1 } ∷ es else e ∷ increment es v

-- `inv[v]--`, and the entry deleted where that leaves nothing. A missing key is written and
-- deleted at once.
unfoldable pub decrement : List InvEntry → ℕ → List InvEntry
decrement [] v = []
decrement (e ∷ es) v =
    if e.variant == v
    then if leb (e.count - 1) 0 then es else record e { count = e.count - 1 } ∷ es
    else e ∷ decrement es v

-- The loop that takes the components of the chosen blueprint out of the inventory.
unfoldable pub consume : List InvEntry → List ℕ → List InvEntry
consume inv [] = inv
consume inv (v ∷ vs) = consume (decrement inv v) vs

abbrev pub le_entry : InvEntry → InvEntry → Bool
le_entry a b = leb a.variant b.variant

-- The order of a map's iteration is not fixed; the sort by variant makes it irrelevant.
unfoldable pub sorted_inventory : List InvEntry → List InvEntry
sorted_inventory inv = sort_by le_entry inv

abbrev pub entry_value : InvEntry → ℕ
entry_value e = elim (lookup e.variant) [ some c ↦ c.value * e.count | none ↦ 0 ]

unfoldable pub inventory_value : List InvEntry → ℕ
inventory_value inv = sum_of entry_value (sorted_inventory inv)
