-- ===== src/Engine.antt =====
-- The adjudication scripts of apps/lumen/internal/lua, which Redis runs atomically one at a time.
pub mod Room
pub mod PlaceBid
pub mod Sealed
pub mod Lifecycle
pub mod Invariant
pub mod Trace
pub mod SealedClose
