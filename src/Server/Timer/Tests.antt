-- ===== src/Server/Timer/Tests.antt =====
-- Witnesses for the theorems on the Timer Worker.
use live_auction_system.Prelude.{ℕ, [], ◌∷◌, Option, some, none, if◌then◌else◌, ◌==◌}
use live_auction_system.Model.Status.{live}
use live_auction_system.Server.Timer.{TimerState, TimerSnapshot}

abbrev idle : TimerState
idle = record { active = (4, 900) ∷ []; suppressed = [] }

abbrev snapshots : ℕ → Option TimerSnapshot
snapshots aid = if aid == 9 then none else some (record { status = live; end_at_ms = 60000 })
