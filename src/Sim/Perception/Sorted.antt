-- ===== src/Sim/Perception/Sorted.antt =====
-- Sightings are reported nearest first.
use mathlib.Core.List.{Perm}
use robocolony.Common.{
  ◌≡◌, ◌<◌, ◌⊎◌, ◌≤ℤ◌, true, false, arith, List, IsOrdered, IsSorted-IsOrdered, sort_by-IsSorted,
  sort_by-perm,
}
use robocolony.Sim.World.State.{Sighting}
use robocolony.Sim.Perception.{le_sighting, sort_sightings}

le_sighting_total : (a b : Sighting) → le_sighting a b ≡ false → le_sighting b a ≡ true
le_sighting_total a b h = ground arith

le_sighting_trans :
    (a b c : Sighting) → le_sighting a b ≡ true → le_sighting b c ≡ true → le_sighting a c ≡ true
le_sighting_trans a b c h k = ground arith

-- `a` is nearer than `b`, or as near and its id is not the higher one.
abbrev pub IsBefore : Sighting → Sighting → Type 0
IsBefore a b = (a.distance < b.distance) ⊎ (a.distance ≡ b.distance) × (a.id ≤ℤ b.id)

le_sighting→IsBefore : (a b : Sighting) → le_sighting a b ≡ true → IsBefore a b
le_sighting→IsBefore a b h = ground arith

-- `sortSightings` returns the sightings that it is given, each once, and each of them is nearer than
-- every one that comes later in the list, or as near with an id that is not higher.
pub sort_sightings-IsSorted :
    (s : List Sighting) → IsOrdered IsBefore (sort_sightings s) × Perm (sort_sightings s) s
unfolding sort_sightings
sort_sightings-IsSorted s =
    let sorted = sort_by-IsSorted le_sighting le_sighting_total le_sighting_trans s in
    (
      IsSorted-IsOrdered le_sighting IsBefore le_sighting→IsBefore (sort_sightings s) sorted,
      sort_by-perm le_sighting s,
    )
