-- ===== src/Server/Conn/Pump.antt =====
-- writePump of apps/lumen/internal/server/ws.go, the one goroutine that writes to the socket.
-- `socket` is the connection of the websocket library: given what is written, whether it takes the
-- next frame. A channel that is empty gives no frame: the pump is its only receiver and asks for its
-- length first. Where `done` is closed and a frame waits, Go's select takes either; here it is `done`.
use live_auction_system.Prelude.{
  ℕ, zero, suc, Bool, true, false, ◌&&◌, ◌||◌, Option, none, some, if◌then◌else◌, leb, List, [],
  ◌∷◌, ◌++◌, length,
}
use live_auction_system.Server.Conn.{
  OutboundFrame, Lane, crit_lane, broadcast_lane, lossy_lane, Conn, done, close_with_code,
  enqueue_critical,
}

-- `maxOutboundFrameBytes`
abbrev pub max_outbound_frame_bytes : ℕ
max_outbound_frame_bytes = 32768

-- `maxDrainFrames`
abbrev pub max_drain_frames : ℕ
max_drain_frames = 256

-- writePump returns: nothing more is written.
unfoldable pub stop_pump : Conn → Conn
stop_pump c = record c { pumping = false; selected = none }

-- A broadcast frame leaves its lane for the pump, which holds none.
unfoldable pub select_broadcast : Option OutboundFrame → List OutboundFrame → Conn → Conn
select_broadcast none (f ∷ fs) c = record c { selected = some f; broadcast = fs }
select_broadcast _ _ c = c

-- The case of the blocking select: a critical frame that has arrived since the poll, a broadcast frame, a
-- lossy frame, or a ping and whether it is written. Where the lane is empty the case cannot be taken, and
-- nothing happens.
pub data Ready : Type 0 where
  crit_ready : Ready
  broadcast_ready : Ready
  lossy_ready : Ready
  ping_ready : Bool → Ready

-- The select at the end of a turn: no ping is due, or one is, with whether it is written and whether the
-- flush after it succeeds.
pub data DuePing : Type 0 where
  not_due : DuePing
  due : Bool → Bool → DuePing

-- The ping that is due, written and flushed, or the pump returns.
unfoldable pub serve_ping : DuePing → Conn → Conn
unfolding stop_pump close_with_code
serve_ping not_due c = c
serve_ping (due true true) c = c
serve_ping (due _ _) c = stop_pump (close_with_code 0 c)

-- Critical frames that arrive one after the other.
unfoldable pub arrive : ℕ → List OutboundFrame → Conn → Conn
unfolding enqueue_critical
arrive send_buf_frames [] c = c
arrive send_buf_frames (f ∷ fs) c = arrive send_buf_frames fs (enqueue_critical send_buf_frames f c)

-- No frame waits in the lane.
unfoldable pub is_empty : List OutboundFrame → Bool
is_empty [] = true
is_empty (f ∷ fs) = false

-- The next loop, where the last one did not stop the pump.
unfoldable pub go_on : Bool × (ℕ × Conn) → (ℕ → Conn → Bool × (ℕ × Conn)) → Bool × (ℕ × Conn)
go_on (false, at) next = (false, at)
go_on (true, (budget, c)) next = next budget c

module _ (socket : List (Lane × OutboundFrame) → OutboundFrame → Bool) where
  -- Raw bytes have a size limit; a prepared frame is bounded where it is made.
  unfoldable pub accepts : OutboundFrame → Conn → Bool
  accepts f c = (f.prepared || leb f.size max_outbound_frame_bytes) && socket c.written f

  -- `writeFrame`, `writePrepared` and `write`: the frame goes out, or the connection is closed and
  -- the pump returns.
  unfoldable pub write_frame : Lane → OutboundFrame → Conn → Bool × Conn
  unfolding close_with_code stop_pump accepts
  write_frame lane f c =
      if accepts f c
      then (true, record c { written = c.written ++ (lane, f) ∷ [] })
      else (false, stop_pump (close_with_code 0 c))

  -- The frame at the head of a lane, received and written.
  unfoldable pub send_crit : List OutboundFrame → Conn → Bool × Conn
  unfolding write_frame
  send_crit [] c = (true, c)
  send_crit (f ∷ fs) c = write_frame crit_lane f (record c { crit = fs })

  unfoldable pub send_broadcast : List OutboundFrame → Conn → Bool × Conn
  unfolding write_frame
  send_broadcast [] c = (true, c)
  send_broadcast (f ∷ fs) c = write_frame broadcast_lane f (record c { broadcast = fs })

  unfoldable pub send_lossy : List OutboundFrame → Conn → Bool × Conn
  unfolding write_frame
  send_lossy [] c = (true, c)
  send_lossy (f ∷ fs) c = write_frame lossy_lane f (record c { lossy = fs })

  -- The selected broadcast frame, written.
  unfoldable pub send_selected : Option OutboundFrame → Conn → Bool × Conn
  unfolding write_frame
  send_selected none c = (true, c)
  send_selected (some f) c = write_frame broadcast_lane f (record c { selected = none })

  -- `writeBroadcastAfterPriority`, `n` turns of its loop left.
  unfoldable pub write_broadcast_after_priority : ℕ → Conn → Bool × Conn
  unfolding done send_crit send_selected is_empty
  write_broadcast_after_priority zero c = send_selected c.selected c
  write_broadcast_after_priority (suc n) c =
      let sent = send_crit c.crit c in
      let rest = write_broadcast_after_priority n sent.1 in
      if done c.closed
      then (false, c)
      else if is_empty c.crit
      then send_selected c.selected c
      else if sent.0
      then rest
      else sent

  -- The loops of `coalesceDrain`: `n` frames were queued, `budget` is left of `maxDrainFrames`. They
  -- return whether the pump goes on, the budget that is left and the connection.
  unfoldable pub drain_crit : ℕ → ℕ → Conn → Bool × (ℕ × Conn)
  unfolding done send_crit
  drain_crit zero budget c = (true, (budget, c))
  drain_crit (suc n) zero c = (true, (zero, c))
  drain_crit (suc n) (suc budget) c =
      let sent = send_crit c.crit c in
      let rest = drain_crit n budget sent.1 in
      if done c.closed
      then (false, (suc budget, c))
      else if sent.0
      then rest
      else (false, (suc budget, sent.1))

  -- `late n` are the critical frames that arrive before the turn after which `n` are left.
  unfoldable pub drain_broadcast : ℕ → (ℕ → List OutboundFrame) → ℕ → ℕ → Conn → Bool × (ℕ × Conn)
  unfolding done send_crit send_broadcast is_empty arrive
  drain_broadcast send_buf_frames late zero budget c = (true, (budget, c))
  drain_broadcast send_buf_frames late (suc n) zero c = (true, (zero, c))
  drain_broadcast send_buf_frames late (suc n) (suc budget) c =
      let d = arrive send_buf_frames (late n) c in
      let sent = if is_empty d.crit then send_broadcast d.broadcast d else send_crit d.crit d in
      let rest = drain_broadcast send_buf_frames late n budget sent.1 in
      if done d.closed
      then (false, (suc budget, d))
      else if sent.0
      then rest
      else (false, (suc budget, sent.1))

  unfoldable pub drain_lossy : ℕ → ℕ → Conn → Bool × (ℕ × Conn)
  unfolding done send_lossy
  drain_lossy zero budget c = (true, (budget, c))
  drain_lossy (suc n) zero c = (true, (zero, c))
  drain_lossy (suc n) (suc budget) c =
      let sent = send_lossy c.lossy c in
      let rest = drain_lossy n budget sent.1 in
      if done c.closed
      then (false, (suc budget, c))
      else if sent.0
      then rest
      else (false, (suc budget, sent.1))

  -- `coalesceDrain`
  unfoldable pub coalesce_drain : ℕ → (ℕ → List OutboundFrame) → Conn → Bool × (ℕ × Conn)
  unfolding drain_crit drain_broadcast drain_lossy go_on
  coalesce_drain send_buf_frames late c =
      go_on
        (go_on
          (go_on (drain_crit (length c.crit) max_drain_frames c)
            (λ b d. drain_broadcast send_buf_frames late (length d.broadcast) b d))
          (λ b d. drain_crit (length d.crit) b d))
        (λ b d. drain_lossy (length d.lossy) b d)

  -- The end of a turn of `writePump`: the batch, the flush and a ping that is due, where the first write
  -- succeeded.
  unfoldable pub finish_turn : ℕ → (ℕ → List OutboundFrame) → Bool → DuePing → Bool × Conn → Conn
  unfolding coalesce_drain stop_pump close_with_code serve_ping
  finish_turn send_buf_frames during flushed ping (false, c) = stop_pump c
  finish_turn send_buf_frames during flushed ping (true, c) =
      let batch = coalesce_drain send_buf_frames during c in
      if batch.0
      then (if flushed then serve_ping ping batch.1.1 else stop_pump (close_with_code 0 batch.1.1))
      else stop_pump batch.1.1

  -- The blocking select of `writePump`, by the case that Go takes.
  unfoldable pub write_selected : Ready → Conn → Bool × Conn
  unfolding write_broadcast_after_priority send_crit send_lossy select_broadcast stop_pump
      close_with_code
  write_selected crit_ready c = send_crit c.crit c
  write_selected broadcast_ready c =
      write_broadcast_after_priority max_drain_frames (select_broadcast c.selected c.broadcast c)
  write_selected lossy_ready c = send_lossy c.lossy c
  write_selected (ping_ready true) c = (true, c)
  write_selected (ping_ready false) c = (false, close_with_code 0 c)

  -- A turn of the loop of `writePump`. `late` are critical frames that arrive between the poll and
  -- the write of a selected frame, `during` those that arrive in the batch; `flushed` is whether the
  -- flush succeeds, and `ping` what the last select finds.
  unfoldable pub pump_turn :
      ℕ → Ready → List OutboundFrame → (ℕ → List OutboundFrame) → Bool → DuePing → Conn → Conn
  unfolding done stop_pump is_empty finish_turn send_crit write_selected arrive
  pump_turn send_buf_frames ready late during flushed ping c =
      if done c.closed
      then stop_pump c
      else if is_empty c.crit
      then finish_turn send_buf_frames during flushed ping
          (write_selected ready (arrive send_buf_frames late c))
      else finish_turn send_buf_frames during flushed ping (send_crit c.crit c)
