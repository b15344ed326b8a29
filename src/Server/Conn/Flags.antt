-- ===== src/Server/Conn/Flags.antt =====
-- The barrier's flag and its buffer through the steps of a connection,
-- apps/lumen/internal/server/ws.go.
use live_auction_system.Prelude.{
  ℕ, Bool, true, false, Option, none, some, if◌then◌else◌, List, [], ◌∷◌, ◌≡◌, refl, ◌∙◌, ◌⊎◌, inl,
  inr, arith, Bool-cases,
}
use live_auction_system.Server.Conn.{
  OutboundFrame, Lane, crit_lane, broadcast_lane, lossy_lane, Conn, close_with_code,
  enqueue_broadcast_ready, enqueue_broadcast, enqueue_critical, try_send_lossy, splice_and_go_live,
  begin_join_barrier,
}
use live_auction_system.Server.Conn.Pump.{
  select_broadcast, send_crit, send_lossy, send_selected, stop_pump, write_frame,
}
use live_auction_system.Server.Conn.Interleave.{
  ConnStep, critical, fan_out_frame, best_effort, join_begins, join_ends, closes, pump_crit,
  pump_selects, pump_selected, pump_lossy, pump_fails, pump_sees_done, pump_step, conn_step,
}

-- Outside of a ROOM_JOIN no frame waits in the buffer.
unfoldable pub Tidy : Conn → Type 0
Tidy c = (c.joining ≡ true) ⊎ (c.pending ≡ [])

-- The flag after a step.
unfoldable pub next_joining : ConnStep → Bool → Bool
next_joining join_begins b = true
next_joining join_ends b = false
next_joining _ b = b

module _ (n : ℕ) (socket : List (Lane × OutboundFrame) → OutboundFrame → Bool) where
  -- A write keeps the flag and the buffer.
  pub write_frame-keeps :
      (l : Lane) (f : OutboundFrame) (c : Conn)
      → ((write_frame socket l f c).1.joining ≡ c.joining)
        × ((write_frame socket l f c).1.pending ≡ c.pending)
  unfolding write_frame stop_pump close_with_code
  write_frame-keeps l f c = ground arith

  send_crit-keeps :
      (fs : List OutboundFrame) (c : Conn)
      → ((send_crit socket fs c).1.joining ≡ c.joining)
        × ((send_crit socket fs c).1.pending ≡ c.pending)
  unfolding send_crit
  send_crit-keeps [] c = (refl, refl)
  send_crit-keeps (f ∷ fs) c = write_frame-keeps crit_lane f (record c { crit = fs })

  send_lossy-keeps :
      (fs : List OutboundFrame) (c : Conn)
      → ((send_lossy socket fs c).1.joining ≡ c.joining)
        × ((send_lossy socket fs c).1.pending ≡ c.pending)
  unfolding send_lossy
  send_lossy-keeps [] c = (refl, refl)
  send_lossy-keeps (f ∷ fs) c = write_frame-keeps lossy_lane f (record c { lossy = fs })

  send_selected-keeps :
      (o : Option OutboundFrame) (c : Conn)
      → ((send_selected socket o c).1.joining ≡ c.joining)
        × ((send_selected socket o c).1.pending ≡ c.pending)
  unfolding send_selected
  send_selected-keeps none c = (refl, refl)
  send_selected-keeps (some f) c = write_frame-keeps broadcast_lane f (record c { selected = none })

  select_broadcast-keeps :
      (o : Option OutboundFrame) (fs : List OutboundFrame) (c : Conn)
      → ((select_broadcast o fs c).joining ≡ c.joining)
        × ((select_broadcast o fs c).pending ≡ c.pending)
  unfolding select_broadcast
  select_broadcast-keeps none [] c = (refl, refl)
  select_broadcast-keeps none (f ∷ fs) c = (refl, refl)
  select_broadcast-keeps (some f) fs c = (refl, refl)

  pub pump_step-keeps :
      (s : ConnStep) (c : Conn)
      → ((pump_step n socket s c).joining ≡ c.joining)
        × ((pump_step n socket s c).pending ≡ c.pending)
  unfolding pump_step stop_pump close_with_code
  pump_step-keeps (critical f) c = (refl, refl)
  pump_step-keeps (fan_out_frame f) c = (refl, refl)
  pump_step-keeps (best_effort f) c = (refl, refl)
  pump_step-keeps join_begins c = (refl, refl)
  pump_step-keeps join_ends c = (refl, refl)
  pump_step-keeps (closes k) c = (refl, refl)
  pump_step-keeps pump_crit c = send_crit-keeps c.crit c
  pump_step-keeps pump_selects c = select_broadcast-keeps c.selected c.broadcast c
  pump_step-keeps pump_selected c = send_selected-keeps c.selected c
  pump_step-keeps pump_lossy c = send_lossy-keeps c.lossy c
  pump_step-keeps pump_fails c = (refl, refl)
  pump_step-keeps pump_sees_done c = ground arith

  pub ready-keeps :
      (f : OutboundFrame) (c : Conn)
      → ((enqueue_broadcast_ready n f c).joining ≡ c.joining)
        × ((enqueue_broadcast_ready n f c).pending ≡ c.pending)
  unfolding enqueue_broadcast_ready close_with_code
  ready-keeps f c = ground arith

  pub conn_step-joining :
      (s : ConnStep) (c : Conn) → (conn_step n socket s c).joining ≡ next_joining s c.joining
  unfolding conn_step next_joining enqueue_critical enqueue_broadcast try_send_lossy
      begin_join_barrier splice_and_go_live close_with_code
  conn_step-joining (critical f) c = ground arith
  conn_step-joining (fan_out_frame f) c = ground (arith, ready-keeps f c)
  conn_step-joining (best_effort f) c = ground arith
  conn_step-joining join_begins c = refl
  conn_step-joining join_ends c = refl
  conn_step-joining (closes k) c = refl
  conn_step-joining pump_crit c = ground (arith, pump_step-keeps pump_crit c)
  conn_step-joining pump_selects c = ground (arith, pump_step-keeps pump_selects c)
  conn_step-joining pump_selected c = ground (arith, pump_step-keeps pump_selected c)
  conn_step-joining pump_lossy c = ground (arith, pump_step-keeps pump_lossy c)
  conn_step-joining pump_fails c = ground (arith, pump_step-keeps pump_fails c)
  conn_step-joining pump_sees_done c = ground (arith, pump_step-keeps pump_sees_done c)

  -- The pump's steps, under the guard of `conn_step`.
  pub pumped_pending :
      (s : ConnStep) (c : Conn)
      → (if c.pumping then pump_step n socket s c else c).pending ≡ c.pending
  pumped_pending s c = ground (arith, pump_step-keeps s c)

  -- A step that keeps both keeps the buffer tidy.
  keeps-Tidy : (c d : Conn) → d.joining ≡ c.joining → d.pending ≡ c.pending → Tidy c → Tidy d
  unfolding Tidy
  keeps-Tidy c d hj hp (inl h) = inl (hj ∙ h)
  keeps-Tidy c d hj hp (inr h) = inr (hp ∙ h)

  pub critical_pending :
      (f : OutboundFrame) (c : Conn) → (enqueue_critical n f c).pending ≡ c.pending
  unfolding enqueue_critical close_with_code
  critical_pending f c = ground arith

  pub best_effort_pending :
      (f : OutboundFrame) (c : Conn) → (try_send_lossy f c).pending ≡ c.pending
  unfolding try_send_lossy
  best_effort_pending f c = ground arith

  fan_out_pending :
      (f : OutboundFrame) (c : Conn)
      → c.joining ≡ false
      → (enqueue_broadcast n f c).pending ≡ c.pending
  unfolding enqueue_broadcast
  fan_out_pending f c h = ground (arith, ready-keeps f c)

  fan_out-Tidy :
      (f : OutboundFrame) (c : Conn) → Tidy c → Tidy (conn_step n socket (fan_out_frame f) c)
  unfolding Tidy conn_step next_joining
  fan_out-Tidy f c h = elim (Bool-cases c.joining) [
    | inl e ↦ inl (conn_step-joining (fan_out_frame f) c ∙ e)
    | inr e ↦
        keeps-Tidy c (enqueue_broadcast n f c) (conn_step-joining (fan_out_frame f) c)
          (fan_out_pending f c e) h
  ]

  pub conn_step-Tidy : (s : ConnStep) (c : Conn) → Tidy c → Tidy (conn_step n socket s c)
  unfolding Tidy conn_step next_joining begin_join_barrier splice_and_go_live close_with_code
  conn_step-Tidy (critical f) c h =
      keeps-Tidy c (enqueue_critical n f c) (conn_step-joining (critical f) c)
        (critical_pending f c) h
  conn_step-Tidy (fan_out_frame f) c h = fan_out-Tidy f c h
  conn_step-Tidy (best_effort f) c h =
      keeps-Tidy c (try_send_lossy f c) (conn_step-joining (best_effort f) c)
        (best_effort_pending f c) h
  conn_step-Tidy join_begins c h = inl refl
  conn_step-Tidy join_ends c h = inr refl
  conn_step-Tidy (closes k) c h = h
  conn_step-Tidy pump_crit c h =
      keeps-Tidy c (conn_step n socket pump_crit c) (conn_step-joining pump_crit c)
        (pumped_pending pump_crit c) h
  conn_step-Tidy pump_selects c h =
      keeps-Tidy c (conn_step n socket pump_selects c) (conn_step-joining pump_selects c)
        (pumped_pending pump_selects c) h
  conn_step-Tidy pump_selected c h =
      keeps-Tidy c (conn_step n socket pump_selected c) (conn_step-joining pump_selected c)
        (pumped_pending pump_selected c) h
  conn_step-Tidy pump_lossy c h =
      keeps-Tidy c (conn_step n socket pump_lossy c) (conn_step-joining pump_lossy c)
        (pumped_pending pump_lossy c) h
  conn_step-Tidy pump_fails c h =
      keeps-Tidy c (conn_step n socket pump_fails c) (conn_step-joining pump_fails c)
        (pumped_pending pump_fails c) h
  conn_step-Tidy pump_sees_done c h =
      keeps-Tidy c (conn_step n socket pump_sees_done c) (conn_step-joining pump_sees_done c)
        (pumped_pending pump_sees_done c) h
