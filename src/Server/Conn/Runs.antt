-- ===== src/Server/Conn/Runs.antt =====
-- The fan-out's frames through every interleaving of the senders and the pump of
-- apps/lumen/internal/server/ws.go.
use live_auction_system.Prelude.{
  ℕ, Bool, true, false, if◌then◌else◌, ltb, List, [], ◌∷◌, ◌++◌, length, ◌≡◌, refl, sym, ap, ◌∙◌,
  inl, inr, append-nil, append_assoc, arith, Bool-cases,
}
use mathlib.Core.Path.{subst}
use live_auction_system.Server.Conn.{
  OutboundFrame, Lane, Conn, done, close_with_code, enqueue_broadcast_ready, enqueue_broadcast,
  lossy_frames, enqueue_critical, try_send_lossy, splice_and_go_live, begin_join_barrier,
  close_code_backpressure_drop, buffer,
}
use live_auction_system.Server.Conn.Interleave.{
  ConnStep, critical, fan_out_frame, best_effort, join_begins, join_ends, closes, pump_crit,
  pump_selects, pump_selected, pump_lossy, pump_fails, pump_sees_done, pump_step, conn_step,
  conn_run, fan_out_frames, joins_in_turn,
}
use live_auction_system.Server.Conn.Delivery.{
  Open, Shut, Ledger, waiting, close-Ledger, offer-Open, offer-Shut, ready-Ledger, splice-Ledger,
  close-Shut,
}
use live_auction_system.Server.Conn.Writes.{pump_step-Ledger}
use live_auction_system.Server.Conn.Flags.{
  Tidy, next_joining, conn_step-joining, conn_step-Tidy, ready-keeps, pumped_pending,
  critical_pending, best_effort_pending,
}

module _ (n : ℕ) (socket : List (Lane × OutboundFrame) → OutboundFrame → Bool) where
  -- A frame that is offered waits behind the others.
  offer-Ledger :
      (offered pend : List OutboundFrame) (f : OutboundFrame) (c : Conn)
      → Ledger offered pend c
      → Ledger (offered ++ f ∷ []) (pend ++ f ∷ []) c
  unfolding Ledger
  offer-Ledger offered pend f c (inl h) = inl (offer-Open offered pend f c h)
  offer-Ledger offered pend f c (inr h) = inr (offer-Shut offered f c h)

  -- The branches of `buffer`.
  buffer_closed : (f : OutboundFrame) (c : Conn) → done c.closed ≡ true → buffer n f c ≡ c
  unfolding buffer
  buffer_closed f c h = simp (h)

  buffer_room :
      (f : OutboundFrame) (c : Conn)
      → done c.closed ≡ false
      → ltb (length c.pending) n ≡ true
      → buffer n f c ≡ record c { pending = c.pending ++ f ∷ [] }
  unfolding buffer
  buffer_room f c h room = simp (h, room)

  buffer_full :
      (f : OutboundFrame) (c : Conn)
      → done c.closed ≡ false
      → ltb (length c.pending) n ≡ false
      → buffer n f c ≡ close_with_code close_code_backpressure_drop c
  unfolding buffer
  buffer_full f c h full = simp (h, full)

  -- The frame goes to the buffer of the barrier.
  buffered-Ledger :
      (offered : List OutboundFrame) (f : OutboundFrame) (c : Conn)
      → Ledger offered c.pending c
      → Ledger (offered ++ f ∷ []) (buffer n f c).pending (buffer n f c)
  unfolding Ledger Open Shut waiting
  buffered-Ledger offered f c (inl h) = elim (Bool-cases (ltb (length c.pending) n)) [
    | inl room ↦
        subst (λ d. Ledger (offered ++ f ∷ []) d.pending d) (sym (buffer_room f c h.0 room))
          (inl (offer-Open offered c.pending f c h))
    | inr full ↦
        subst (λ d. Ledger (offered ++ f ∷ []) d.pending d) (sym (buffer_full f c h.0 full))
          (inr (
            offer-Shut offered f (close_with_code close_code_backpressure_drop c)
              (close-Shut offered c.pending close_code_backpressure_drop c h)))
  ]
  buffered-Ledger offered f c (inr h) =
      subst (λ d. Ledger (offered ++ f ∷ []) d.pending d) (sym (buffer_closed f c h.0))
        (inr (offer-Shut offered f c h))

  -- The two ways of `enqueueBroadcast`.
  pub under_barrier :
      (f : OutboundFrame) (c : Conn) → c.joining ≡ true → enqueue_broadcast n f c ≡ buffer n f c
  unfolding enqueue_broadcast
  under_barrier f c e = simp (e)

  past_barrier :
      (f : OutboundFrame) (c : Conn)
      → c.joining ≡ false
      → enqueue_broadcast n f c ≡ enqueue_broadcast_ready n f c
  unfolding enqueue_broadcast
  past_barrier f c e = simp (e)

  Tidy-pending : (c : Conn) → c.joining ≡ false → Tidy c → c.pending ≡ []
  unfolding Tidy
  Tidy-pending c e (inl h) = ground (arith, h, e)
  Tidy-pending c e (inr h) = h

  -- Outside of the barrier the frame goes to the lane.
  laned-Ledger :
      (offered : List OutboundFrame) (f : OutboundFrame) (c : Conn)
      → c.pending ≡ []
      → Ledger offered c.pending c
      → Ledger
          (offered ++ f ∷ [])
          (enqueue_broadcast_ready n f c).pending
          (enqueue_broadcast_ready n f c)
  laned-Ledger offered f c hp h =
      subst (λ l. Ledger (offered ++ f ∷ []) l (enqueue_broadcast_ready n f c))
        (sym ((ready-keeps n socket f c).1 ∙ hp))
        (ready-Ledger n (offered ++ f ∷ []) f [] c
          (offer-Ledger offered [] f c (subst (λ l. Ledger offered l c) hp h)))

  fan_out-Ledger :
      (offered : List OutboundFrame) (f : OutboundFrame) (c : Conn)
      → Tidy c
      → Ledger offered c.pending c
      → Ledger (offered ++ f ∷ []) (enqueue_broadcast n f c).pending (enqueue_broadcast n f c)
  unfolding enqueue_broadcast Tidy
  fan_out-Ledger offered f c t h = elim (Bool-cases c.joining) [
    | inl e ↦
        subst (λ d. Ledger (offered ++ f ∷ []) d.pending d) (sym (under_barrier f c e))
          (buffered-Ledger offered f c h)
    | inr e ↦
        subst (λ d. Ledger (offered ++ f ∷ []) d.pending d) (sym (past_barrier f c e))
          (laned-Ledger offered f c (Tidy-pending c e t) h)
  ]

  -- What both branches of a test keep.
  pub either-Ledger :
      (offered pend : List OutboundFrame) (b : Bool) (c d : Conn)
      → Ledger offered pend c
      → Ledger offered pend d
      → Ledger offered pend (if b then c else d)
  either-Ledger offered pend true c d hc hd = hc
  either-Ledger offered pend false c d hc hd = hd

  pub critical-Ledger :
      (offered pend : List OutboundFrame) (f : OutboundFrame) (c : Conn)
      → Ledger offered pend c
      → Ledger offered pend (enqueue_critical n f c)
  unfolding enqueue_critical Ledger Open Shut waiting
  critical-Ledger offered pend f c h =
      either-Ledger offered pend (done c.closed) c
        (if ltb (length c.crit) n
          then record c { crit = c.crit ++ f ∷ [] }
          else close_with_code close_code_backpressure_drop c)
        h
        (either-Ledger offered pend (ltb (length c.crit) n) (record c { crit = c.crit ++ f ∷ [] })
          (close_with_code close_code_backpressure_drop c) h
          (inr (close-Ledger offered pend close_code_backpressure_drop c h)))

  pub best_effort-Ledger :
      (offered pend : List OutboundFrame) (f : OutboundFrame) (c : Conn)
      → Ledger offered pend c
      → Ledger offered pend (try_send_lossy f c)
  unfolding try_send_lossy Ledger Open Shut waiting
  best_effort-Ledger offered pend f c h =
      either-Ledger offered pend (done c.closed) c
        (if ltb (length c.lossy) lossy_frames then record c { lossy = c.lossy ++ f ∷ [] } else c) h
        (either-Ledger offered pend (ltb (length c.lossy) lossy_frames)
          (record c { lossy = c.lossy ++ f ∷ [] }) c h h)

  -- What the fan-out offers in a step.
  unfoldable pub offers : ConnStep → List OutboundFrame
  offers (fan_out_frame f) = f ∷ []
  offers _ = []

  -- A step that offers nothing and keeps the buffer.
  quiet-Ledger :
      (offered : List OutboundFrame) (c d : Conn)
      → d.pending ≡ c.pending
      → Ledger offered c.pending d
      → Ledger (offered ++ []) d.pending d
  quiet-Ledger offered c d e h =
      subst (λ l. Ledger (offered ++ []) l d) (sym e)
        (subst (λ o. Ledger o c.pending d) (sym (append-nil offered)) h)

  at_work :
      (offered : List OutboundFrame) (s : ConnStep) (c : Conn) (b : Bool)
      → c.pumping ≡ b
      → Ledger offered c.pending c
      → Ledger offered c.pending (if b then pump_step n socket s c else c)
  at_work offered s c true e h = pump_step-Ledger n socket offered c.pending s c e h
  at_work offered s c false e h = h

  -- A step of the pump, where it is at work.
  pumped-Ledger :
      (offered : List OutboundFrame) (s : ConnStep) (c : Conn)
      → Ledger offered c.pending c
      → Ledger
          (offered ++ [])
          (if c.pumping then pump_step n socket s c else c).pending
          (if c.pumping then pump_step n socket s c else c)
  pumped-Ledger offered s c h =
      quiet-Ledger offered c (if c.pumping then pump_step n socket s c else c)
        (pumped_pending n socket s c) (at_work offered s c c.pumping refl h)

  -- Every step keeps the ledger, a ROOM_JOIN that begins only after the last one has ended.
  conn_step-Ledger :
      (offered : List OutboundFrame) (s : ConnStep) (steps : List ConnStep) (c : Conn)
      → Tidy c
      → joins_in_turn c.joining (s ∷ steps) ≡ true
      → Ledger offered c.pending c
      → Ledger (offered ++ offers s) (conn_step n socket s c).pending (conn_step n socket s c)
  unfolding offers conn_step joins_in_turn begin_join_barrier splice_and_go_live Ledger Open Shut
      waiting close_with_code
  conn_step-Ledger offered (critical f) steps c t j h =
      quiet-Ledger offered c (enqueue_critical n f c) (critical_pending n socket f c)
        (critical-Ledger offered c.pending f c h)
  conn_step-Ledger offered (fan_out_frame f) steps c t j h = fan_out-Ledger offered f c t h
  conn_step-Ledger offered (best_effort f) steps c t j h =
      quiet-Ledger offered c (try_send_lossy f c) (best_effort_pending n socket f c)
        (best_effort-Ledger offered c.pending f c h)
  conn_step-Ledger offered join_begins steps c t j h =
      subst (λ o. Ledger o [] (begin_join_barrier c)) (sym (append-nil offered))
        (subst (λ l. Ledger offered l c) (Tidy-pending c (ground (arith, j)) t) h)
  conn_step-Ledger offered join_ends steps c t j h =
      subst (λ o. Ledger o [] (splice_and_go_live n c)) (sym (append-nil offered))
        (splice-Ledger n offered c.pending c h)
  conn_step-Ledger offered (closes k) steps c t j h =
      quiet-Ledger offered c (close_with_code k c) refl (inr (close-Ledger offered c.pending k c h))
  conn_step-Ledger offered pump_crit steps c t j h = pumped-Ledger offered pump_crit c h
  conn_step-Ledger offered pump_selects steps c t j h = pumped-Ledger offered pump_selects c h
  conn_step-Ledger offered pump_selected steps c t j h = pumped-Ledger offered pump_selected c h
  conn_step-Ledger offered pump_lossy steps c t j h = pumped-Ledger offered pump_lossy c h
  conn_step-Ledger offered pump_fails steps c t j h = pumped-Ledger offered pump_fails c h
  conn_step-Ledger offered pump_sees_done steps c t j h = pumped-Ledger offered pump_sees_done c h

  -- The flag of `joins_in_turn` follows the connection's.
  turns_on :
      (s : ConnStep) (steps : List ConnStep) (b : Bool)
      → joins_in_turn b (s ∷ steps) ≡ true
      → joins_in_turn (next_joining s b) steps ≡ true
  unfolding joins_in_turn next_joining
  turns_on (critical f) steps b h = h
  turns_on (fan_out_frame f) steps b h = h
  turns_on (best_effort f) steps b h = h
  turns_on join_begins steps b h = ground (arith, h)
  turns_on join_ends steps b h = ground (arith, h)
  turns_on (closes k) steps b h = h
  turns_on pump_crit steps b h = h
  turns_on pump_selects steps b h = h
  turns_on pump_selected steps b h = h
  turns_on pump_lossy steps b h = h
  turns_on pump_fails steps b h = h
  turns_on pump_sees_done steps b h = h

  offers_first :
      (s : ConnStep) (steps : List ConnStep)
      → fan_out_frames (s ∷ steps) ≡ offers s ++ fan_out_frames steps
  unfolding fan_out_frames offers
  offers_first (critical f) steps = refl
  offers_first (fan_out_frame f) steps = refl
  offers_first (best_effort f) steps = refl
  offers_first join_begins steps = refl
  offers_first join_ends steps = refl
  offers_first (closes k) steps = refl
  offers_first pump_crit steps = refl
  offers_first pump_selects steps = refl
  offers_first pump_selected steps = refl
  offers_first pump_lossy steps = refl
  offers_first pump_fails steps = refl
  offers_first pump_sees_done steps = refl

  pub conn_run-Ledger :
      (steps : List ConnStep) (offered : List OutboundFrame) (c : Conn)
      → Tidy c
      → joins_in_turn c.joining steps ≡ true
      → Ledger offered c.pending c
      → Ledger
          (offered ++ fan_out_frames steps)
          (conn_run n socket steps c).pending
          (conn_run n socket steps c)
  unfolding conn_run fan_out_frames
  conn_run-Ledger [] offered c t j h = quiet-Ledger offered c c refl h
  conn_run-Ledger (s ∷ steps) offered c t j h =
      let d : Conn = conn_step n socket s c in
      let after =
        conn_run-Ledger steps (offered ++ offers s) d (conn_step-Tidy n socket s c t)
          (ap (λ b. joins_in_turn b steps) (conn_step-joining n socket s c)
            ∙ turns_on s steps c.joining j)
          (conn_step-Ledger offered s steps c t j h) in
      subst (λ o. Ledger o (conn_run n socket steps d).pending (conn_run n socket steps d))
        (append_assoc offered (offers s) (fan_out_frames steps)
          ∙ ap (λ l. offered ++ l) (sym (offers_first s steps)))
        after
