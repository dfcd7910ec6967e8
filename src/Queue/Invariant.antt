-- ===== src/Queue/Invariant.antt =====
-- What holds of the queue between two calls: sequence numbers are not shared, a tombstone stands for
-- one entry, the index and the live entries correspond, and the counters are exact.
mod Defs
mod Bury
mod Push
mod Take
mod Promote
pub use Defs.*
pub use Bury.*
pub use Push.*
pub use Take.*
pub use Promote.*
