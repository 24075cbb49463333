-- ===== src/Examples.antt =====
-- Runs of the modelled code at concrete inputs.
pub mod Trip
mod Build
mod Saves
pub mod Play
mod Hosting
mod Running
mod InGame
