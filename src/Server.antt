-- ===== src/Server.antt =====
-- apps/lumen/internal/server: the gateway.
pub mod Mode
pub mod Hub
pub mod Bid
pub mod StatePatch
pub mod Timer
pub mod Join
pub mod Admission
pub mod Persistence
pub mod Auctioneer
pub mod Social
pub mod Conn
pub mod Rest
