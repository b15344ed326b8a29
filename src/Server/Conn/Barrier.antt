-- ===== src/Server/Conn/Barrier.antt =====
-- What the client of a connection sees of the fan-out, and the ROOM_JOIN barrier, for
-- apps/lumen/internal/server/ws.go.
use live_auction_system.Prelude.{
  ℕ, Bool, true, false, List, [], ◌∷◌, ◌++◌, ◌≡◌, refl, inl, inr, arith,
}
use live_auction_system.Server.Conn.{OutboundFrame, Lane, Conn, done, new_conn}
use live_auction_system.Server.Conn.Interleave.{
  ConnStep, join_ends, conn_run, written_broadcast, fan_out_frames, joins_in_turn,
}
use live_auction_system.Server.Conn.Delivery.{Open, Shut, Ledger, waiting, held}
use live_auction_system.Server.Conn.Flags.{Tidy}
use live_auction_system.Server.Conn.Runs.{conn_run-Ledger}

-- No ROOM_JOIN ends in the steps.
unfoldable pub never_ends : List ConnStep → Bool
never_ends [] = true
never_ends (join_ends ∷ steps) = false
never_ends (_ ∷ steps) = never_ends steps

module _ (n : ℕ) (socket : List (Lane × OutboundFrame) → OutboundFrame → Bool) where
  new-Ledger :
      (steps : List ConnStep)
      → joins_in_turn false steps ≡ true
      → Ledger
          (fan_out_frames steps)
          (conn_run n socket steps new_conn).pending
          (conn_run n socket steps new_conn)
  unfolding Ledger Open Shut Tidy done held written_broadcast
  new-Ledger steps h =
      conn_run-Ledger n socket steps [] new_conn (inr refl) h (inl (refl, (refl, refl)))

  -- However the fan-out, the direct replies, the joins, the closes and the pump interleave, and
  -- whatever the socket does: while the connection is open, what the pump wrote of the broadcast
  -- lane, what it holds, the lane and the barrier's buffer are together the frames that the fan-out
  -- handed over, in their order. None is lost, repeated or overtaken.
  pub fan_out_delivered :
      (steps : List ConnStep)
      → joins_in_turn false steps ≡ true
      → done (conn_run n socket steps new_conn).closed ≡ false
      → written_broadcast (conn_run n socket steps new_conn).written
          ++ (held (conn_run n socket steps new_conn).selected
              ++ ((conn_run n socket steps new_conn).broadcast
                  ++ (conn_run n socket steps new_conn).pending))
        ≡ fan_out_frames steps
  unfolding Ledger Open Shut
  fan_out_delivered steps h o = elim (new-Ledger steps h) [
    | inl g ↦ g.1.1
    | inr g ↦ absurd (ground (arith, g.0, o))
  ]

  -- Let one goroutine at a time hand over fan-out frames, so that between a send that fails and the close
  -- that follows it no other fan-out frame is sent. What the pump ever writes of the broadcast lane is a beginning of what the fan-out handed over,
  -- also where the connection is closed on the way: the client sees no gap.
  pub fan_out_prefix :
      (steps : List ConnStep)
      → joins_in_turn false steps ≡ true
      → (rest : List OutboundFrame) × (written_broadcast (conn_run n socket steps new_conn).written
            ++ rest
          ≡ fan_out_frames steps)
  unfolding Ledger Open Shut
  fan_out_prefix steps h = elim (new-Ledger steps h) [
    | inl g ↦ (
      held (conn_run n socket steps new_conn).selected
          ++ ((conn_run n socket steps new_conn).broadcast
              ++ (conn_run n socket steps new_conn).pending),
      g.1.1,
    )
    | inr g ↦ (waiting (conn_run n socket steps new_conn) [] ++ g.1.0, g.1.1)
  ]
