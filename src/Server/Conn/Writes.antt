-- ===== src/Server/Conn/Writes.antt =====
-- The fan-out's frames through the steps of writePump, apps/lumen/internal/server/ws.go.
use live_auction_system.Prelude.{
  ℕ, Bool, true, false, Option, none, some, if◌then◌else◌, List, [], ◌∷◌, ◌++◌, ◌≡◌, refl, sym, inl,
  inr, Bool-cases,
}
use mathlib.Core.Path.{subst}
use live_auction_system.Server.Conn.{
  OutboundFrame, Lane, crit_lane, broadcast_lane, lossy_lane, Conn, done, close_with_code,
}
use live_auction_system.Server.Conn.Pump.{
  select_broadcast, send_crit, send_lossy, send_selected, stop_pump, write_frame, accepts,
}
use live_auction_system.Server.Conn.Interleave.{
  ConnStep, critical, fan_out_frame, best_effort, join_begins, join_ends, closes, pump_crit,
  pump_selects, pump_selected, pump_lossy, pump_fails, pump_sees_done, pump_step, written_broadcast,
}
use live_auction_system.Server.Conn.Lanes.{broadcast_other, broadcast_lossy}
use live_auction_system.Server.Conn.Delivery.{
  Open, Shut, Ledger, waiting, stop-Shut, fail-Ledger, other-Ledger, selected-Ledger,
  selects-Ledger,
}

module _ (n : ℕ) (socket : List (Lane × OutboundFrame) → OutboundFrame → Bool) where
  -- The two ends of a write.
  written_out :
      (l : Lane) (f : OutboundFrame) (c : Conn)
      → accepts socket f c ≡ true
      → (write_frame socket l f c).1 ≡ record c { written = c.written ++ (l, f) ∷ [] }
  unfolding write_frame
  written_out l f c h = simp (h)

  write_fails :
      (l : Lane) (f : OutboundFrame) (c : Conn)
      → accepts socket f c ≡ false
      → (write_frame socket l f c).1 ≡ stop_pump (close_with_code 0 c)
  unfolding write_frame
  write_fails l f c h = simp (h)

  -- A write from another lane.
  write-Ledger :
      (offered pend : List OutboundFrame) (l : Lane) (f : OutboundFrame) (c : Conn)
      → written_broadcast (c.written ++ (l, f) ∷ []) ≡ written_broadcast c.written
      → Ledger offered pend c
      → Ledger offered pend (write_frame socket l f c).1
  write-Ledger offered pend l f c e h = elim (Bool-cases (accepts socket f c)) [
    | inl ok ↦
        subst (λ d. Ledger offered pend d) (sym (written_out l f c ok))
          (other-Ledger offered pend c (c.written ++ (l, f) ∷ []) e h)
    | inr bad ↦
        subst (λ d. Ledger offered pend d) (sym (write_fails l f c bad))
          (fail-Ledger offered pend 0 c h)
  ]

  -- The write of the frame that the pump holds.
  pub write_selected-Ledger :
      (offered pend : List OutboundFrame) (o : Option OutboundFrame) (c : Conn)
      → c.pumping ≡ true
      → c.selected ≡ o
      → Ledger offered pend c
      → Ledger offered pend (send_selected socket o c).1
  unfolding send_selected accepts stop_pump close_with_code
  write_selected-Ledger offered pend none c hp hs h = h
  write_selected-Ledger offered pend (some f) c hp hs h = elim (Bool-cases (accepts socket f c)) [
    | inl ok ↦
        subst (λ d. Ledger offered pend d)
          (sym (written_out broadcast_lane f (record c { selected = none }) ok))
          (selected-Ledger offered pend f c hp hs h)
    | inr bad ↦
        subst (λ d. Ledger offered pend d)
          (sym (write_fails broadcast_lane f (record c { selected = none }) bad))
          (fail-Ledger offered pend 0 c h)
  ]

  -- The frame that the pump selects.
  pub select-Ledger :
      (offered pend : List OutboundFrame) (o : Option OutboundFrame) (fs : List OutboundFrame)
      (c : Conn)
      → c.selected ≡ o
      → c.broadcast ≡ fs
      → Ledger offered pend c
      → Ledger offered pend (select_broadcast o fs c)
  unfolding select_broadcast
  select-Ledger offered pend none [] c hs hb h = h
  select-Ledger offered pend none (f ∷ fs) c hs hb h = selects-Ledger offered pend f fs c hs hb h
  select-Ledger offered pend (some f) fs c hs hb h = h

  pub crit-Ledger :
      (offered pend fs : List OutboundFrame) (c : Conn)
      → Ledger offered pend c
      → Ledger offered pend (send_crit socket fs c).1
  unfolding send_crit Ledger Open Shut waiting
  crit-Ledger offered pend [] c h = h
  crit-Ledger offered pend (f ∷ fs) c h =
      write-Ledger offered pend crit_lane f (record c { crit = fs }) (broadcast_other c.written f) h

  pub lossy-Ledger :
      (offered pend fs : List OutboundFrame) (c : Conn)
      → Ledger offered pend c
      → Ledger offered pend (send_lossy socket fs c).1
  unfolding send_lossy Ledger Open Shut waiting
  lossy-Ledger offered pend [] c h = h
  lossy-Ledger offered pend (f ∷ fs) c h =
      write-Ledger offered pend lossy_lane f (record c { lossy = fs }) (broadcast_lossy c.written f)
        h

  done-Ledger :
      (offered pend : List OutboundFrame) (c : Conn)
      → Ledger offered pend c
      → Ledger offered pend (if done c.closed then stop_pump c else c)
  unfolding Ledger Open
  done-Ledger offered pend c (inl h) =
      subst (λ b. Ledger offered pend (if b then stop_pump c else c)) (sym h.0) (inl h)
  done-Ledger offered pend c (inr h) =
      subst (λ b. Ledger offered pend (if b then stop_pump c else c)) (sym h.0)
        (inr (stop-Shut offered c h))

  pub pump_step-Ledger :
      (offered pend : List OutboundFrame) (s : ConnStep) (c : Conn)
      → c.pumping ≡ true
      → Ledger offered pend c
      → Ledger offered pend (pump_step n socket s c)
  unfolding pump_step
  pump_step-Ledger offered pend (critical f) c hp h = h
  pump_step-Ledger offered pend (fan_out_frame f) c hp h = h
  pump_step-Ledger offered pend (best_effort f) c hp h = h
  pump_step-Ledger offered pend join_begins c hp h = h
  pump_step-Ledger offered pend join_ends c hp h = h
  pump_step-Ledger offered pend (closes k) c hp h = h
  pump_step-Ledger offered pend pump_crit c hp h = crit-Ledger offered pend c.crit c h
  pump_step-Ledger offered pend pump_selects c hp h =
      select-Ledger offered pend c.selected c.broadcast c refl refl h
  pump_step-Ledger offered pend pump_selected c hp h =
      write_selected-Ledger offered pend c.selected c hp refl h
  pump_step-Ledger offered pend pump_lossy c hp h = lossy-Ledger offered pend c.lossy c h
  pump_step-Ledger offered pend pump_fails c hp h = fail-Ledger offered pend 0 c h
  pump_step-Ledger offered pend pump_sees_done c hp h = done-Ledger offered pend c h
