-- ===== src/Travel.antt =====
-- kermp/travel.py: the host's travel barrier. The transaction that `self.current` refers to is
-- mutated in place there; here a method returns the coordinator that holds the new transaction.
mod State
mod Ops
mod Calls
pub mod Invariant
pub mod Barrier
pub mod Progress
pub mod Completion
pub use State.*
unfoldable pub use Calls.*
unfoldable pub use Ops.*
