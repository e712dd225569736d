-- ===== src/Lib.antt =====
-- Verification of robocolony, a game in which programmed robots of several colonies collect
-- components, build further robots and fight on a grid.
--
-- The world is simulated by internal/sim: `World.Step` is one tick. It lets every live robot act in
-- turn, by its recall order or by the controller that its program is; then it sweeps up the
-- robots that were destroyed, whose components fall to the ground in part; then every base goes on
-- with the robot that it assembles. The other packages decide actions (internal/prog), run matches
-- (internal/lobby), and serve them (internal/server, internal/auth, internal/db, internal/config).
-- The library models the simulation; of the programs how they are checked, installed and decide on
-- an action, and one of the warnings that the editor shows; and of the matches their settings, their
-- ticks, the players' commands, and the replay of a match from its recorded commands.
--
-- Which file models what:
-- - Common: tests, lists, integers, sorting and sums that all parts use. `Common/Sort` stands for
--   `slices.SortFunc`.
-- - Sim/Grid: `Coord`, `Chebyshev`, `Heading`, `Delta`, `Turn` of internal/sim/world.go, `add` of
--   internal/sim/tick.go, `headingTo` of internal/sim/nav.go.
-- - Sim/Terrain: the terrain table of internal/sim/world.go, `Terrain.Passable`, `SpeedBonus`.
-- - Sim/Catalogue, Sim/Blueprint: internal/sim/component.go, the tables and `Blueprint` with
--   `Validate`, `Has`, `Mass`, `Value`, `Weapons`; also `locomotionOf` and `StartingHealth` of
--   internal/sim/tick.go.
-- - Sim/Speed: `SpeedOn`, `EffectiveSpeed`, `moveTicks`, `turnTicks`, `buildTicks` of
--   internal/sim/tick.go and their constants.
-- - Sim/World: State has the records of internal/sim/world.go, internal/sim/tick.go and
--   internal/sim/events.go; Inventory has the map `Base.Inventory`, `SortedInventory` and
--   `InventoryValue`; Access has `In`, `At`, `SetTerrain`, `Passable`, `NextID`, `baseOf`,
--   `AtOwnBase`, `RobotByID`, `statsOf`, `hasRobots`, `dropAt`, `emit`, `Ended`.
-- - Sim/Nav: `path`, `unwind`, `reachable` of internal/sim/nav.go.
-- - Sim/Perception: `inCone`, `look`, `RadarRange`, `radar`, `sortSightings` of internal/sim/nav.go,
--   `View`, `weaponry`, `componentInReach`, `signalRadius` of internal/sim/tick.go.
-- - Sim/Actions: Move has `recallAction`, `step` (as `step_to`) and `moveTo`; Combat has
--   `readyWeapon`, `enemyAt`, `attack`; Cargo has `pickUp`, `deposit`, `drop`; Apply has `primary`
--   and `apply`; all of internal/sim/tick.go.
-- - Sim/Production: `covers`, `produce`, `spawn`, `IdleReason` of internal/sim/tick.go.
-- - Sim/Tick: `Step` of internal/sim/tick.go, `salvage`, `sweepDestroyed` of internal/sim/match.go.
-- - Sim/Score: `FleetValue`, `Score`, `Leaderboard` of internal/sim/match.go.
-- - Prog: Catalogue has the tables of internal/prog/catalogue.go, Program the rule trees of
--   internal/prog/program.go, Matcher the `matcher` of internal/prog/eval.go and Decide its `Decide`
--   with the side effects, the targets and the deposit reflex, Validate `warnDominated`,
--   `hasPrimary`, `subset` and `conjuncts` of internal/prog/validate.go, Structure `structure` of
--   internal/prog/program.go and the errors of `Validate`, and Runtime internal/prog/runtime.go with
--   `Decode` of internal/prog/program.go.
-- - Lobby: Settings has internal/lobby/settings.go (its ranges in Settings/Ranges), History
--   internal/lobby/history.go, Match the ticks of internal/lobby/match.go and the feed of
--   internal/lobby/events.go, Command `Apply` of internal/lobby/match.go with `Recall` and
--   `InstallProgram` of internal/server/robots.go and `Command.apply` of internal/lobby/persist.go,
--   Replay `applyDue` and `ReplayTo` of internal/lobby/persist.go, Restore `save`, `restore` and
--   `Restore` of internal/lobby/lobby.go with `newReplay` and `replay` of
--   internal/lobby/persist.go, and Service `Create`, `Join`, `SetAI`, `SetLoadout`, `Leave`,
--   `Start` and `matchEnded` of internal/lobby/lobby.go on the tables of internal/db/lobbies.go.
-- - Sim/Safety, Sim/Conservation and the children of the files above: proofs. Sim/Tests: a small
--   world, on which the theorems are applied. Prog/Tests: a program of two rules, Lobby/Tests: a match
--   on that world, and Lobby/Service/Tests: a lobby of two players, likewise.
--
-- How the code is read:
-- - An `int` is an integer or a natural number without a bound where the code keeps it from being
--   negative; the `uint64` counters wrap around. Cells are numbered far below the bounds of an `int`
--   (the largest arena has 128 to a side); Sim/Grid/Wrapped has `Chebyshev` and `abs` on the 64-bit
--   `int` with its wrap-around beside the distance that the other files use. A byte type (heading,
--   terrain, variant) is its number.
-- - A pointer to a robot, a base or a loose component is its index in the world's list: a handler
--   takes the index and the record that it has there, and writes it back with `put`.
-- - `Base.Inventory` is a list of the entries that are present. `slices.SortFunc` is an insertion
--   sort: the orders used here end with an id, a colony or a key of the map.
-- - `*rand.Rand` is a parameter with the one property that a draw stays below its bound. `Control` and
--   `OnDestroy`, which other packages install, are a parameter with a state of its own, and `Control`
--   may wipe the registers of the robot; the runtime of Prog/Runtime is such a parameter.
-- - What `json.Unmarshal` makes of a program's text is a parameter, and so are the operations of
--   `float64` and whether the context of a replay is cancelled in a round. A match under its lock is a
--   value, and what happens to it is a sequence of inputs: ticks of its driver, recalls and installs.
-- - A row of the table of lobbies is kept with its rows of the table of members, in join order, and with
--   the settings that its JSON encodes. A statement with its conditions in its WHERE clause is one
--   step. Whether a match can be made of a room and registered, or registered again after a restart, is
--   a parameter, and so are the match that a room's settings and seats give at a restart, and what a
--   loadout resolves to in the caller's library. A database that fails is left out.
-- - The maps of the runtime are association lists; the source only looks keys up, writes and deletes.
-- - The loop of `ReplayTo` runs on fuel of two more than the target tick: every round but the last two
--   takes the clock one tick on.
-- - The loops over the robots and over the bases run on fuel, which is the length of the list: no
--   round changes it. The search of `path` runs on fuel that is two more than the number of cells,
--   `unwind` on one more than that number; a route has no cell twice.
-- - A condition keeps the fields of the source's record; an operator that is none of the four is one
--   constructor. The state that a matcher changes while it walks a condition is passed on.
--
-- Not modelled: of internal/prog the other warnings, explanations, the trace history and `Encode`; of
-- internal/lobby the arena and the colony kits that a match starts with, the registry of matches, the
-- archive and the combat report; `StateHash`, `String` methods and copies made for callers; the generation of maps
-- (internal/sim/generate.go); and the other packages.
pub mod Common
pub mod Lobby
pub mod Prog
pub mod Sim
