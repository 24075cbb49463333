-- ===== src/Runtime/Client.antt =====
-- ClientRuntime (kermp/runtime.py): between a player's game and the host.
pub mod State
pub mod Views
mod Saves
mod Game
pub mod Messages
pub mod Shown
mod InOrder
mod Keeps
mod Quiet
pub mod Line
mod LineViews
mod Queue
mod LineEvents
pub mod Upload
pub mod Run
unfoldable pub use State.*
unfoldable pub use Views.*
unfoldable pub use Saves.*
unfoldable pub use Game.*
unfoldable pub use Messages.*
