-- ===== src/Server/Conn/Tests.antt =====
-- Runs of one connection, for apps/lumen/internal/server/ws.go.
use live_auction_system.Prelude.{
  inl, ℕ, Bool, true, false, some, List, [], ◌∷◌, ◌++◌, ◌≡◌, ◌≤◌, refl, arith, ◌⊎◌,
}
use live_auction_system.Server.Conn.{
  OutboundFrame, Lane, crit_lane, broadcast_lane, lossy_lane, Conn, new_conn, done,
  close_code_backpressure_drop,
}
use live_auction_system.Server.Conn.Pump.{
  pump_turn, broadcast_ready, due, coalesce_drain, write_broadcast_after_priority, max_drain_frames,
}
use live_auction_system.Server.Conn.Interleave.{
  ConnStep, critical, fan_out_frame, join_begins, join_ends, pump_crit, pump_selects, pump_selected,
  conn_run, joins_in_turn, fan_out_frames, written_broadcast,
}
use live_auction_system.Server.Conn.Delivery.{held, Ledger, Open}
use live_auction_system.Server.Conn.Turn.{pump_turn-Ledger}
use live_auction_system.Server.Conn.Drain.{Moves, queued, tagged, quiet}
use live_auction_system.Server.Conn.Batch.{coalesce_drain-Moves}
use live_auction_system.Server.Conn.Priority.{write_broadcast_after_priority-last}
use live_auction_system.Server.Conn.Barrier.{fan_out_delivered, fan_out_prefix}

abbrev room_frame : ℕ → OutboundFrame
room_frame n = record { prepared = true; size = 300; contents = n }

abbrev direct_frame : ℕ → OutboundFrame
direct_frame n = record { prepared = false; size = 200; contents = n }

abbrev takes_all : List (Lane × OutboundFrame) → OutboundFrame → Bool
takes_all ws f = true

-- A join while two events arrive, and one event after it.
abbrev join_steps : List ConnStep
join_steps =
    join_begins
    ∷ fan_out_frame (room_frame 7)
    ∷ critical (direct_frame 1)
    ∷ fan_out_frame (room_frame 8)
    ∷ join_ends
    ∷ pump_crit
    ∷ pump_selects
    ∷ pump_selected
    ∷ fan_out_frame (room_frame 9)
    ∷ pump_selects
    ∷ []

fan_out_delivered_example :
    written_broadcast (conn_run 512 takes_all join_steps new_conn).written
      ++ (held (conn_run 512 takes_all join_steps new_conn).selected
          ++ ((conn_run 512 takes_all join_steps new_conn).broadcast
              ++ (conn_run 512 takes_all join_steps new_conn).pending))
    ≡ fan_out_frames join_steps
unfolding joins_in_turn conn_run done
fan_out_delivered_example = fan_out_delivered 512 takes_all join_steps refl refl

-- The event of the join is written behind the direct frame.
join_written :
    (conn_run 512 takes_all join_steps new_conn).written
    ≡ (crit_lane, direct_frame 1) ∷ (broadcast_lane, room_frame 7) ∷ []
unfolding conn_run
join_written = refl

-- Three events for a lane of two frames.
abbrev flood_steps : List ConnStep
flood_steps =
    fan_out_frame (room_frame 1)
    ∷ fan_out_frame (room_frame 2)
    ∷ fan_out_frame (room_frame 3)
    ∷ pump_selects
    ∷ pump_selected
    ∷ []

flood_closes :
    (conn_run 2 takes_all flood_steps new_conn).closed ≡ some close_code_backpressure_drop
unfolding conn_run
flood_closes = refl

fan_out_prefix_example :
    (rest : List OutboundFrame) × (written_broadcast
          (conn_run 2 takes_all flood_steps new_conn).written
        ++ rest
      ≡ fan_out_frames flood_steps)
unfolding joins_in_turn
fan_out_prefix_example = fan_out_prefix 2 takes_all flood_steps refl

-- A connection that joins while an event of its last room waits.
abbrev rejoining : Conn
rejoining = record new_conn { joining = true; broadcast = room_frame 3 ∷ [] }

abbrev during_join : List ConnStep
during_join =
    fan_out_frame (room_frame 7)
    ∷ critical (direct_frame 1)
    ∷ pump_crit
    ∷ pump_selects
    ∷ pump_selected
    ∷ pump_selects
    ∷ []

-- One frame in each lane.
abbrev one_each : Conn
one_each = record new_conn {
  crit = direct_frame 1 ∷ [];
  broadcast = room_frame 2 ∷ [];
  lossy = direct_frame 3 ∷ [];
}

coalesce_drain-Moves_example :
    (sent : ℕ) × (Moves sent one_each (coalesce_drain takes_all 512 quiet one_each).1.1
      × ((sent ≤ max_drain_frames)
          × ((sent ≡ max_drain_frames)
              ⊎ (queued (coalesce_drain takes_all 512 quiet one_each).1.1 ≡ []))))
unfolding coalesce_drain
coalesce_drain-Moves_example = coalesce_drain-Moves takes_all 512 one_each refl

one_each_written :
    (coalesce_drain takes_all 512 quiet one_each).1.1.written
    ≡ (crit_lane, direct_frame 1)
      ∷ (broadcast_lane, room_frame 2)
      ∷ (lossy_lane, direct_frame 3)
      ∷ []
unfolding coalesce_drain
one_each_written = refl

-- A selected event behind two direct frames.
abbrev two_waiting : Conn
two_waiting = record new_conn {
  crit = direct_frame 1 ∷ direct_frame 2 ∷ [];
  selected = some (room_frame 9);
}

write_broadcast_after_priority-last_example :
    (write_broadcast_after_priority takes_all max_drain_frames two_waiting).1.written
    ≡ two_waiting.written
      ++ (tagged crit_lane two_waiting.crit ++ (broadcast_lane, room_frame 9) ∷ [])
unfolding write_broadcast_after_priority
write_broadcast_after_priority-last_example =
    write_broadcast_after_priority-last takes_all max_drain_frames two_waiting.crit (room_frame 9)
      two_waiting refl refl (omega arith) refl

-- A turn that selects an event while a direct frame arrives, and at whose end a ping is due, and
-- whose last flush fails.
pump_turn-Ledger_example : Ledger (room_frame 2 ∷ []) [] (
    pump_turn takes_all 512 broadcast_ready
      (direct_frame 1 ∷ [])
      (λ n. direct_frame 3 ∷ [])
      true
      (due true false)
      (record new_conn { broadcast = room_frame 2 ∷ [] }))
unfolding Ledger Open done held written_broadcast
pump_turn-Ledger_example =
    pump_turn-Ledger 512 takes_all (room_frame 2 ∷ []) [] broadcast_ready (direct_frame 1 ∷ [])
      (λ n. direct_frame 3 ∷ []) true (due true false)
      (record new_conn { broadcast = room_frame 2 ∷ [] }) refl refl (inl (refl, (refl, refl)))
