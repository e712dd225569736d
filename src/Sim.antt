-- ===== src/Sim.antt =====
-- The simulation core, internal/sim: grid and catalogue, world state, navigation, perception,
-- actions, production, and the tick that drives them.
pub mod Grid
pub mod Terrain
pub mod Catalogue
pub mod Blueprint
pub mod Speed
pub mod World
pub mod Nav
pub mod Perception
pub mod Actions
pub mod Production
pub mod Tests
pub mod Tick
pub mod Score
pub mod Safety
pub mod Conservation
