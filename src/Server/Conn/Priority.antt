-- ===== src/Server/Conn/Priority.antt =====
-- A selected broadcast frame behind the critical lane, `writeBroadcastAfterPriority` of
-- apps/lumen/internal/server/ws.go.
use live_auction_system.Prelude.{
  ℕ, zero, suc, ◌≤◌, Bool, true, false, Option, none, some, if◌then◌else◌, List, [], ◌∷◌, ◌++◌,
  length, ◌≡◌, refl, sym, ap, ◌∙◌, append_assoc, arith,
}
use live_auction_system.Server.Conn.{OutboundFrame, Lane, crit_lane, broadcast_lane, Conn, done}
use live_auction_system.Server.Conn.Pump.{
  send_crit, send_selected, is_empty, write_broadcast_after_priority,
}
use live_auction_system.Server.Conn.Drain.{tagged, wrote}

-- The ways through a turn of the loop that leave the pump at work.
lane_empty :
    (d e : Bool) (a s rest x : Bool × Conn)
    → e ≡ true
    → (if d then (false, x.1) else if e then a else if s.0 then rest else s).0 ≡ true
    → (if d then (false, x.1) else if e then a else if s.0 then rest else s) ≡ a
lane_empty true e a s rest x h g = absurd (ground (arith, g))
lane_empty false true a s rest x h g = refl
lane_empty false false a s rest x h g = absurd (ground (arith, h))

lane_waits :
    (d e : Bool) (a s rest x : Bool × Conn)
    → e ≡ false
    → (if d then (false, x.1) else if e then a else if s.0 then rest else s).0 ≡ true
    → (s.0 ≡ true) × ((if d then (false, x.1) else if e then a else if s.0 then rest else s) ≡ rest)
lane_waits true e a s rest x h g = absurd (ground (arith, g))
lane_waits false true a s rest x h g = absurd (ground (arith, h))
lane_waits false false a (true, d) rest x h g = (refl, refl)
lane_waits false false a (false, d) rest x h g = absurd (ground (arith, g))

module _ (socket : List (Lane × OutboundFrame) → OutboundFrame → Bool) where
  -- The selected frame, written.
  selected_out :
      (o : Option OutboundFrame) (f : OutboundFrame) (c : Conn)
      → o ≡ some f
      → (send_selected socket o c).0 ≡ true
      → (send_selected socket o c).1.written ≡ c.written ++ (broadcast_lane, f) ∷ []
  unfolding send_selected
  selected_out o f c e h =
      ap (λ k. (send_selected socket k c).1.written) e
      ∙ ap (λ d. d.written)
          (wrote socket broadcast_lane f (record c { selected = none })
            (ap (λ k. (send_selected socket k c).0) (sym e) ∙ h))

  -- The first critical frame, written.
  crit_out :
      (g : OutboundFrame) (fs : List OutboundFrame) (c : Conn)
      → c.crit ≡ g ∷ fs
      → (send_crit socket c.crit c).0 ≡ true
      → (send_crit socket c.crit c).1
        ≡ record c { crit = fs; written = c.written ++ (crit_lane, g) ∷ [] }
  unfolding send_crit
  crit_out g fs c e h =
      ap (λ l. (send_crit socket l c).1) e
      ∙ wrote socket crit_lane g (record c { crit = fs })
          (ap (λ l. (send_crit socket l c).0) (sym e) ∙ h)

  -- With at most as many critical frames as the loop has turns, a selected broadcast frame that goes
  -- out goes out behind all of them.
  pub write_broadcast_after_priority-last :
      (m : ℕ) (fs : List OutboundFrame) (f : OutboundFrame) (c : Conn)
      → c.crit ≡ fs
      → c.selected ≡ some f
      → length fs ≤ m
      → (write_broadcast_after_priority socket m c).0 ≡ true
      → (write_broadcast_after_priority socket m c).1.written
        ≡ c.written ++ (tagged crit_lane fs ++ (broadcast_lane, f) ∷ [])
  unfolding write_broadcast_after_priority tagged is_empty
  write_broadcast_after_priority-last zero [] f c e s l h = selected_out c.selected f c s h
  write_broadcast_after_priority-last zero (g ∷ fs) f c e s l h = absurd (omega (arith, l))
  write_broadcast_after_priority-last (suc m) [] f c e s l h =
      let sent = send_crit socket c.crit c in
      let w =
        lane_empty (done c.closed) (is_empty c.crit) (send_selected socket c.selected c) sent
          (write_broadcast_after_priority socket m sent.1) (false, c) (ap (λ k. is_empty k) e) h in
      ap (λ r. r.1.written) w ∙ selected_out c.selected f c s (ap (λ r. r.0) (sym w) ∙ h)
  write_broadcast_after_priority-last (suc m) (g ∷ fs) f c e s l h =
      let sent = send_crit socket c.crit c in
      let w =
        lane_waits (done c.closed) (is_empty c.crit) (send_selected socket c.selected c) sent
          (write_broadcast_after_priority socket m sent.1) (false, c) (ap (λ k. is_empty k) e) h in
      let out = crit_out g fs c e w.0 in
      ap (λ r. r.1.written) w.1
      ∙ write_broadcast_after_priority-last m fs f sent.1 (ap (λ d. d.crit) out)
          (ap (λ d. d.selected) out ∙ s) (omega (arith, l)) (ap (λ r. r.0) (sym w.1) ∙ h)
      ∙ ap (λ ws. ws ++ (tagged crit_lane fs ++ (broadcast_lane, f) ∷ [])) (ap (λ d. d.written) out)
      ∙ append_assoc c.written ((crit_lane, g) ∷ [])
          (tagged crit_lane fs ++ (broadcast_lane, f) ∷ [])
