-- ===== src/Engine/Invariant.antt =====
-- What holds of the keys of one auction between two scripts, and that every script keeps it.
mod Defs
pub use Defs.*
