-- ===== src/Game.antt =====
-- The game: `AGame` of GameEngine/ and its subclass `Game` of R-Type/.
pub mod State
pub mod Keys
pub mod Spawning
pub mod Standing
pub mod Lookup
pub mod Movement
pub mod Collisions
pub mod Drift
pub mod Waves
pub mod Actions
pub mod Loop
