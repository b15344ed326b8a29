-- ===== src/Server/Conn/Turn.antt =====
-- A whole turn of writePump, apps/lumen/internal/server/ws.go: the poll or the select, the batch and the
-- flush.
use live_auction_system.Prelude.{
  ℕ, zero, suc, Bool, true, false, Option, none, if◌then◌else◌, List, ◌≡◌, refl, inr,
}
use live_auction_system.Server.Conn.{OutboundFrame, Lane, Conn, done, close_with_code}
use live_auction_system.Server.Conn.Pump.{
  send_crit, send_selected, coalesce_drain, is_empty, stop_pump, select_broadcast, Ready,
  crit_ready, broadcast_ready, lossy_ready, DuePing, not_due, due, serve_ping, ping_ready, arrive,
  write_broadcast_after_priority, finish_turn, write_selected, pump_turn, max_drain_frames,
}
use live_auction_system.Server.Conn.Delivery.{Ledger, close_once-done, fail-Ledger, close-Ledger}
use live_auction_system.Server.Conn.Steps.{
  Holds, Kept, stop-Ledger, either_way, send_crit-Kept, send_lossy-Kept, send_selected-Kept,
  select-Kept, coalesce_drain-Kept, arrive-Kept,
}

module _ (n : ℕ) (socket : List (Lane × OutboundFrame) → OutboundFrame → Bool)
    (offered pend : List OutboundFrame) where
  -- What the loop of the priority lane does with the frame in hand.
  next_frame :
      (o : Option OutboundFrame) (d e : Bool) (c : Conn) (sent rest : Bool × Conn)
      → done c.closed ≡ d
      → Kept offered pend o true c
      → Kept offered pend o sent.0 sent.1
      → (Kept offered pend o true sent.1 → Kept offered pend none rest.0 rest.1)
      → Kept offered pend none
          (if d
            then (false, c)
            else if e
            then send_selected socket c.selected c
            else if sent.0
            then rest
            else sent).0
          (if d
            then (false, c)
            else if e
            then send_selected socket c.selected c
            else if sent.0
            then rest
            else sent).1
  unfolding Kept Holds
  next_frame o true e c sent rest q h hs next = (h.0, q)
  next_frame o false true c sent rest q h hs next =
      send_selected-Kept n socket offered pend c.selected c (h.0, (h.1.0, refl))
  next_frame o false false c (true, s) rest q h hs next = next hs
  next_frame o false false c (false, s) rest q h hs next = hs

  priority-Kept :
      (m : ℕ) (o : Option OutboundFrame) (c : Conn)
      → Kept offered pend o true c
      → Kept offered pend none
          (write_broadcast_after_priority socket m c).0
          (write_broadcast_after_priority socket m c).1
  unfolding write_broadcast_after_priority Kept Holds
  priority-Kept zero o c h =
      send_selected-Kept n socket offered pend c.selected c (h.0, (h.1.0, refl))
  priority-Kept (suc m) o c h =
      let sent = send_crit socket c.crit c in
      next_frame o (done c.closed) (is_empty c.crit) c sent
        (write_broadcast_after_priority socket m sent.1) refl h
        (send_crit-Kept n socket offered pend o c.crit c h) (λ k. priority-Kept m o sent.1 k)

  write_selected-Kept :
      (r : Ready) (c : Conn)
      → Kept offered pend none true c
      → Kept offered pend none (write_selected socket r c).0 (write_selected socket r c).1
  unfolding write_selected Kept Holds Ledger
  write_selected-Kept crit_ready c h = send_crit-Kept n socket offered pend none c.crit c h
  write_selected-Kept broadcast_ready c h =
      let d = select_broadcast c.selected c.broadcast c in
      priority-Kept max_drain_frames d.selected d
        (select-Kept n socket offered pend c.selected c.broadcast c refl refl h.0 h.1.0)
  write_selected-Kept lossy_ready c h = send_lossy-Kept n socket offered pend none c.lossy c h
  write_selected-Kept (ping_ready true) c h = h
  write_selected-Kept (ping_ready false) c h =
      (inr (close-Ledger offered pend 0 c h.0), close_once-done 0 c.closed)

  serve_ping-Ledger :
      (ping : DuePing) (c : Conn) → Ledger offered pend c → Ledger offered pend (serve_ping ping c)
  unfolding serve_ping
  serve_ping-Ledger not_due c h = h
  serve_ping-Ledger (due true true) c h = h
  serve_ping-Ledger (due true false) c h = fail-Ledger offered pend 0 c h
  serve_ping-Ledger (due false flushed) c h = fail-Ledger offered pend 0 c h

  -- The end of a turn, on the outcome of the batch.
  batch_end :
      (flushed : Bool) (ping : DuePing) (b : Bool × (ℕ × Conn))
      → Kept offered pend none b.0 b.1.1
      → Ledger offered pend (
          if b.0
          then (if flushed then serve_ping ping b.1.1 else stop_pump (close_with_code 0 b.1.1))
          else stop_pump b.1.1)
  unfolding Kept Holds
  batch_end true ping (true, (k, d)) h = serve_ping-Ledger ping d h.0
  batch_end false ping (true, (k, d)) h = fail-Ledger offered pend 0 d h.0
  batch_end flushed ping (false, (k, d)) h = stop-Ledger offered pend d h.1 h.0

  finish_turn-Ledger :
      (during : ℕ → List OutboundFrame) (flushed : Bool) (ping : DuePing) (r : Bool × Conn)
      → Kept offered pend none r.0 r.1
      → Ledger offered pend (finish_turn socket n during flushed ping r)
  unfolding finish_turn Kept Holds
  finish_turn-Ledger during flushed ping (false, c) h = stop-Ledger offered pend c h.1 h.0
  finish_turn-Ledger during flushed ping (true, c) h =
      batch_end flushed ping (coalesce_drain socket n during c)
        (coalesce_drain-Kept n socket offered pend during c h)

  turn_done :
      (d : Bool) (c e : Conn)
      → done c.closed ≡ d
      → Ledger offered pend c
      → Ledger offered pend e
      → Ledger offered pend (if d then stop_pump c else e)
  turn_done true c e q h k = stop-Ledger offered pend c q h
  turn_done false c e q h k = k

  -- A whole turn of a writePump that is at work and holds no frame, whichever lane Go's select
  -- takes, whatever critical frames arrive in between and in the batch, whether or not the socket
  -- takes the frames, the flush and a ping, and whether or not a ping is due at its end, keeps the
  -- ledger of the fan-out: what is written, in hand and waiting is what was offered, in order, or
  -- the connection is closed and what is written is a beginning of it.
  pub pump_turn-Ledger :
      (ready : Ready) (late : List OutboundFrame) (during : ℕ → List OutboundFrame) (flushed : Bool)
      (ping : DuePing) (c : Conn)
      → c.pumping ≡ true
      → c.selected ≡ none
      → Ledger offered pend c
      → Ledger offered pend (pump_turn socket n ready late during flushed ping c)
  unfolding pump_turn Kept Holds
  pump_turn-Ledger ready late during flushed ping c hp hs h =
      let polled = send_crit socket c.crit c in
      let chosen = write_selected socket ready (arrive n late c) in
      turn_done (done c.closed) c
        (if is_empty c.crit
          then finish_turn socket n during flushed ping chosen
          else finish_turn socket n during flushed ping polled)
        refl h
        (either_way (λ d. Ledger offered pend d) (is_empty c.crit)
          (finish_turn socket n during flushed ping chosen)
          (finish_turn socket n during flushed ping polled)
          (finish_turn-Ledger during flushed ping chosen (
            write_selected-Kept ready (arrive n late c)
              (arrive-Kept n socket offered pend late c (h, (hp, hs)))))
          (finish_turn-Ledger during flushed ping polled
            (send_crit-Kept n socket offered pend none c.crit c (h, (hp, hs)))))
