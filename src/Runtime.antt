-- ===== src/Runtime.antt =====
-- kermp/runtime.py and the part of kermp/bridge.py that it calls: between a game and the network.
mod Bridge
mod Reading
pub mod Host
pub mod Client
pub mod Delivery
unfoldable pub use Bridge.*
unfoldable pub use Reading.*
