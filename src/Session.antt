-- ===== src/Session.antt =====
-- kermp/session.py: the host's session, with the players, the Sims and the interactions.
mod State
mod Players
mod Interactions
pub mod Requests
pub mod Control
pub mod Leaving
pub mod Core
pub use State.*
unfoldable pub use Players.*
unfoldable pub use Interactions.*
