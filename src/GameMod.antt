-- ===== src/GameMod.antt =====
-- The mod that runs inside the game (sims_mod_src/kermp_mod).
mod Adapter
mod Applying
mod State
mod Travels
mod Views
pub mod Contours
pub mod ContourLaws
pub mod Once
pub mod Echo
pub mod Repeated
pub mod Holding
pub mod Silent
pub mod Reported
unfoldable pub use Adapter.*
unfoldable pub use Applying.*
unfoldable pub use State.*
unfoldable pub use Travels.*
unfoldable pub use Views.*
