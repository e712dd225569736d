-- ===== src/Sim/Actions.antt =====
-- The actions of a robot, internal/sim/tick.go.
pub mod Move
pub mod Combat
pub mod Cargo
pub mod Apply
