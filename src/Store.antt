-- ===== src/Store.antt =====
-- apps/lumen/internal/store: the Redis side of the gateway and the evidence chain in MySQL.
pub mod Stream
pub mod Evidence
pub mod Orders
pub mod Views
pub mod Deletion
