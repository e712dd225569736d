-- ===== src/Sim/World.antt =====
-- The state of a match: internal/sim/world.go, the action and view types of internal/sim/tick.go,
-- and the events of internal/sim/events.go. Robots, bases and loose components are shared by
-- pointer in the source; here a pointer is an index into the world's list.
pub mod State
pub mod Inventory
pub mod Access
