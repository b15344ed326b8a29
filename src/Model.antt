-- ===== src/Model.antt =====
-- apps/lumen/internal/model/model.go: the contract types that the other packages share, and the
-- auction modes of apps/lumen/internal/server/mode.go.
pub mod Status
pub mod Mode
pub mod Events
pub mod Rules
