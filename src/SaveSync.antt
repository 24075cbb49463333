-- ===== src/SaveSync.antt =====
-- kermp/save_sync.py and `stream_save_to` of kermp/net.py: a save file sent in chunks to a client,
-- which checks it before its own file is replaced.
mod Receiver
mod Sender
pub mod Safety
pub mod RoundTrip
unfoldable pub use Receiver.*
unfoldable pub use Sender.*
