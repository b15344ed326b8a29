-- ===== src/Server/Conn/Interleave.antt =====
-- The senders and the pump of apps/lumen/internal/server/ws.go as sequences of steps: each step is
-- one operation on the channels, so that a list of them is one interleaving of the goroutines.
use live_auction_system.Prelude.{Bool, true, false, not, ◌&&◌, if◌then◌else◌, ℕ, List, [], ◌∷◌}
use live_auction_system.Server.Conn.{
  OutboundFrame, Lane, crit_lane, broadcast_lane, Conn, done, close_with_code, enqueue_critical,
  enqueue_broadcast, try_send_lossy, begin_join_barrier, splice_and_go_live,
}
use live_auction_system.Server.Conn.Pump.{
  send_crit, send_lossy, send_selected, stop_pump, select_broadcast,
}

pub data ConnStep : Type 0 where
  -- A direct reply or a frame of ROOM_JOIN, a frame of the fan-out, a PONG.
  critical : OutboundFrame → ConnStep
  fan_out_frame : OutboundFrame → ConnStep
  best_effort : OutboundFrame → ConnStep
  -- ROOM_JOIN begins, and ends.
  join_begins : ConnStep
  join_ends : ConnStep
  -- Some goroutine closes the connection.
  closes : ℕ → ConnStep
  -- The pump writes the next critical frame, selects the next broadcast frame, writes it, writes the
  -- next lossy frame; a flush or a ping fails; it sees `done`.
  pump_crit : ConnStep
  pump_selects : ConnStep
  pump_selected : ConnStep
  pump_lossy : ConnStep
  pump_fails : ConnStep
  pump_sees_done : ConnStep

module _ (send_buf_frames : ℕ) (socket : List (Lane × OutboundFrame) → OutboundFrame → Bool) where
  unfoldable pub pump_step : ConnStep → Conn → Conn
  unfolding send_crit send_lossy send_selected select_broadcast stop_pump done close_with_code
  pump_step pump_crit c = (send_crit socket c.crit c).1
  pump_step pump_selects c = select_broadcast c.selected c.broadcast c
  pump_step pump_selected c = (send_selected socket c.selected c).1
  pump_step pump_lossy c = (send_lossy socket c.lossy c).1
  pump_step pump_fails c = stop_pump (close_with_code 0 c)
  pump_step pump_sees_done c = if done c.closed then stop_pump c else c
  pump_step _ c = c

  unfoldable pub conn_step : ConnStep → Conn → Conn
  unfolding enqueue_critical enqueue_broadcast try_send_lossy begin_join_barrier splice_and_go_live
      pump_step
  conn_step (critical f) c = enqueue_critical send_buf_frames f c
  conn_step (fan_out_frame f) c = enqueue_broadcast send_buf_frames f c
  conn_step (best_effort f) c = try_send_lossy f c
  conn_step join_begins c = begin_join_barrier c
  conn_step join_ends c = splice_and_go_live send_buf_frames c
  conn_step (closes code) c = close_with_code code c
  conn_step s c = if c.pumping then pump_step s c else c

  unfoldable pub conn_run : List ConnStep → Conn → Conn
  unfolding conn_step
  conn_run [] c = c
  conn_run (s ∷ steps) c = conn_run steps (conn_step s c)

-- dispatchWS serves one frame at a time, so a ROOM_JOIN ends before the next one begins. The flag is
-- whether one is under way.
unfoldable pub joins_in_turn : Bool → List ConnStep → Bool
joins_in_turn under_way [] = true
joins_in_turn under_way (join_begins ∷ steps) = not under_way && joins_in_turn true steps
joins_in_turn under_way (join_ends ∷ steps) = under_way && joins_in_turn false steps
joins_in_turn under_way (_ ∷ steps) = joins_in_turn under_way steps

-- The frames that the senders hand over, lane by lane.
unfoldable pub critical_frames : List ConnStep → List OutboundFrame
critical_frames [] = []
critical_frames (critical f ∷ steps) = f ∷ critical_frames steps
critical_frames (_ ∷ steps) = critical_frames steps

unfoldable pub fan_out_frames : List ConnStep → List OutboundFrame
fan_out_frames [] = []
fan_out_frames (fan_out_frame f ∷ steps) = f ∷ fan_out_frames steps
fan_out_frames (_ ∷ steps) = fan_out_frames steps

-- What the pump wrote from one lane.
unfoldable pub written_crit : List (Lane × OutboundFrame) → List OutboundFrame
written_crit [] = []
written_crit ((crit_lane, f) ∷ ws) = f ∷ written_crit ws
written_crit ((_, f) ∷ ws) = written_crit ws

unfoldable pub written_broadcast : List (Lane × OutboundFrame) → List OutboundFrame
written_broadcast [] = []
written_broadcast ((broadcast_lane, f) ∷ ws) = f ∷ written_broadcast ws
written_broadcast ((_, f) ∷ ws) = written_broadcast ws
