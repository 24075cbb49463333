-- ===== src/Runtime/Host.antt =====
-- HostRuntime (kermp/runtime.py): between the host's game and the host.
pub mod State
mod Travels
mod Plays
pub mod Builds
mod Events
mod Messages
pub mod Unchecked
pub mod Commit
unfoldable pub use State.*
unfoldable pub use Travels.*
unfoldable pub use Plays.*
unfoldable pub use Builds.*
unfoldable pub use Events.*
unfoldable pub use Messages.*
