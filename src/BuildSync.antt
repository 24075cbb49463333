-- ===== src/BuildSync.antt =====
-- kermp/buildsync.py: the host's ordered stream of build operations under one lease.
mod Validate
mod Authority
pub mod Checks
pub mod Lease
pub mod History
unfoldable pub use Validate.*
unfoldable pub use Authority.*
