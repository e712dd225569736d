-- ===== src/Lobby/Match.antt =====
-- A running match: the part of internal/lobby/match.go that the tick driver and the players'
-- commands run under the match's lock, and internal/lobby/events.go.
pub mod Clock
pub mod Feed
pub mod Sampled
use robocolony.Common.{
  ℕ, zero, suc, ◌+◌, ◌-◌, ◌%◌, leb, ltb, ◌==◌, pos, Bool, true, false, not, ◌||◌, if◌then◌else◌,
  String, List, [], ◌∷◌, ◌++◌, Option, none, some, length, drop, get_or,
}
use robocolony.Sim.Grid.{Coord, eq_coord}
use robocolony.Sim.Catalogue.{Component, catalogue, anti_grav, variant_none}
use robocolony.Sim.World.State.{World, Base, Event, Rng}
use robocolony.Sim.World.Access.{passable, drop_at}
use robocolony.Sim.Tick.{step}
use robocolony.Prog.Runtime.{Runtime, runtime_controllers}
use robocolony.Lobby.Settings.{Floats, Settings, duration_ticks, spawn_every}
use robocolony.Lobby.History.{History, sample}

-- The command kinds are strings on disk; `cmd_other` is any string but the two.
pub data CommandKind : Type 0 where
  cmd_recall cmd_program cmd_other : CommandKind

pub record Command : Type 0 where
  pub tick : ℕ
  pub kind : CommandKind
  pub robot : ℕ
  pub program_id : String
  pub program : String

pub record Match (F G : Type 0) : Type 0 where
  pub settings : Settings F
  pub world : World G
  pub runtime : Runtime
  pub finished : Bool
  pub log : List Command
  pub replayed : ℕ
  pub history : History
  pub events : List Event

abbrev pub event_cap : ℕ
event_cap = 400

-- `collectEvents`: the oldest events of a list that is too long fall off.
unfoldable pub collect_events : List Event → List Event → List Event
collect_events events new =
    let all = events ++ new in
    if ltb event_cap (length all) then drop (length all - event_cap) all else all

unfoldable pub on_base : Coord → List Base → Bool
on_base c [] = false
on_base c (b ∷ bs) = eq_coord b.coord c || on_base c bs

abbrev pub variant_at : List Component → ℕ → ℕ
variant_at [] i = variant_none
variant_at (c ∷ cs) zero = c.variant
variant_at (c ∷ cs) (suc i) = variant_at cs i

module _ {G : Type 0} ⦃g : Rng G⦄ where
  -- A spawn that is due: a column, a row and a component are drawn, in that order.
  unfoldable pub spawn_drop : World G → World G
  spawn_drop w =
      let (x, r1) = g.intn w.rng w.width in
      let (y, r2) = g.intn r1 w.height in
      let (i, r3) = g.intn r2 (length catalogue) in
      let w' = record w { rng = r3 } in
      let c : Coord = record { x = pos x; y = pos y } in
      if not (passable w' c anti_grav) || on_base c w'.bases
      then w'
      else drop_at w' c (variant_at catalogue i)

  -- `spawnResources`, by the number of ticks between two spawns.
  unfoldable pub spawn_resources : ℕ → World G → World G
  spawn_resources every w = if every == 0 || not (w.tick % every == 0) then w else spawn_drop w

  module _ {F : Type 0} ⦃fl : Floats F⦄ where
    -- A tick of a match that is not over; the end test reads the new tick.
    unfoldable pub advance : Match F G → Match F G
    advance m =
        let (stepped, runtime) = step runtime_controllers m.world m.runtime in
        let w = spawn_resources (spawn_every m.settings) stepped in
        record m {
          world = w;
          runtime = runtime;
          events = collect_events m.events w.events;
          history = sample w m.history;
          finished = leb (duration_ticks m.settings) w.tick;
        }

    -- `step`, with its result: whether the match is still running.
    unfoldable pub step_match : Match F G → Match F G × Bool
    step_match m = let m' = advance m in if m.finished then (m, false) else (m', not m'.finished)
