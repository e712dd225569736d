-- ===== src/Lobby/History.antt =====
-- The sampled series of a match: internal/lobby/history.go.
pub mod Spaced
use robocolony.Common.{
  ℕ, ◌+◌, ◌*◌, ◌%◌, ◌^◌, ltb, ◌==◌, Bool, not, ◌||◌, if◌then◌else◌, List, [], ◌∷◌, ◌++◌, map,
  length, keep,
}
use robocolony.Sim.World.State.{World, Robot, Base}
use robocolony.Sim.Score as Score
use robocolony.Lobby.Settings.{tick_rate}

pub record ColonyHistory : Type 0 where
  pub colony : ℕ
  pub score : List ℕ
  pub robots : List ℕ
  pub collected : List ℕ

pub record History : Type 0 where
  pub interval : ℕ
  pub ticks : List ℕ
  pub colonies : List ColonyHistory

abbrev pub history_every : ℕ
history_every = 10 * tick_rate

abbrev pub history_cap : ℕ
history_cap = 300

-- `everySecond`: the elements 0, 2, 4 and so on.
unfoldable pub every_second {ℓ} : {A : Type ℓ} → List A → List A
every_second [] = []
every_second (x ∷ []) = x ∷ []
every_second (x ∷ y ∷ rest) = x ∷ every_second rest

abbrev pub thin : ColonyHistory → ColonyHistory
thin c = record {
  colony = c.colony;
  score = every_second c.score;
  robots = every_second c.robots;
  collected = every_second c.collected;
}

unfoldable pub decimate : History → History
decimate h = record {
  interval = h.interval * 2 % 2 ^ 64;
  ticks = every_second h.ticks;
  colonies = map thin h.colonies;
}

abbrev pub within_cap : History → History
within_cap h = if ltb history_cap (length h.ticks) then decimate h else h

-- The loop over the bases: the last base of the colony is the one that counts.
unfoldable pub collected_in : ℕ → ℕ → List Base → ℕ
collected_in colony n [] = n
collected_in colony n (b ∷ bs) =
    collected_in colony (if b.colony == colony then b.stats.collected else n) bs

module _ {G : Type 0} where
  unfoldable pub robots_of : World G → ℕ → ℕ
  robots_of w colony = length (keep (λ (r : Robot). r.colony == colony) w.robots)

  unfoldable pub add_point : World G → ColonyHistory → ColonyHistory
  add_point w c = record {
    colony = c.colony;
    score = c.score ++ Score.score w c.colony ∷ [];
    robots = c.robots ++ robots_of w c.colony ∷ [];
    collected = c.collected ++ collected_in c.colony 0 w.bases ∷ [];
  }

  abbrev pub with_point : World G → History → History
  with_point w h = record {
    interval = h.interval;
    ticks = h.ticks ++ w.tick ∷ [];
    colonies = map (add_point w) h.colonies;
  }

  unfoldable pub sample : World G → History → History
  sample w h =
      if h.interval == 0 || not (w.tick % h.interval == 0) then h else within_cap (with_point w h)
