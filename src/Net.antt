-- ===== src/Net.antt =====
-- kermp/net.py: the host of the LAN session.
mod State
mod Sending
mod Requests
mod Dispatch
mod Connection
pub mod Faults
pub mod Ordering
mod Handlers
pub mod Numbering
pub mod Replay
pub use State.*
unfoldable pub use Sending.*
unfoldable pub use Requests.*
unfoldable pub use Dispatch.*
unfoldable pub use Connection.*
