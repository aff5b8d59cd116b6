-- ===== src/Simulator.antt =====
-- internal/simulator/simulator.go: Geometry and Track have the routes, Fleet the vehicles.
pub mod Geometry
pub mod Track
pub mod Fleet
pub mod Prepared
pub mod Moves
pub mod Runs
