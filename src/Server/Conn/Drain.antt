-- ===== src/Server/Conn/Drain.antt =====
-- One batch of writePump, `coalesceDrain` of apps/lumen/internal/server/ws.go, with no sender at work.
use live_auction_system.Prelude.{
  ℕ, zero, suc, ◌+◌, Bool, true, false, if◌then◌else◌, List, [], ◌∷◌, ◌++◌, length, ◌≡◌, refl, sym,
  ap, ◌∙◌, ◌⊎◌, inl, inr, append_assoc, length-append, arith,
}
use mathlib.Core.Path.{subst}
use live_auction_system.Server.Conn.{
  OutboundFrame, Lane, crit_lane, broadcast_lane, lossy_lane, Conn, done,
}
use live_auction_system.Server.Conn.Pump.{
  write_frame, send_crit, send_broadcast, send_lossy, drain_crit, drain_broadcast, drain_lossy,
  arrive, is_empty,
}

-- Frames with the lane they wait in.
unfoldable pub tagged : Lane → List OutboundFrame → List (Lane × OutboundFrame)
tagged l [] = []
tagged l (f ∷ fs) = (l, f) ∷ tagged l fs

-- What waits, in the order of the lanes.
unfoldable pub queued : Conn → List (Lane × OutboundFrame)
unfolding tagged
queued c =
    tagged crit_lane c.crit ++ (tagged broadcast_lane c.broadcast ++ tagged lossy_lane c.lossy)

-- From one connection to the next, `sent` frames went from the head of what waits to the wire.
unfoldable pub Moves : ℕ → Conn → Conn → Type 0
unfolding queued
Moves sent c d =
    (d.written ++ queued d ≡ c.written ++ queued c) × (length d.written ≡ sent + length c.written)

pub Moves-trans : (m k : ℕ) (c d e : Conn) → Moves m c d → Moves k d e → Moves (m + k) c e
unfolding Moves
Moves-trans m k c d e h g = (g.0 ∙ h.0, omega (arith, h.1, g.1))

-- A turn of a loop that leaves the pump at work.
turn :
    {A : Type 0} (d sent : Bool) (rest : Bool × A) (x y : A)
    → (if d then (false, x) else if sent then rest else (false, y)).0 ≡ true
    → (sent ≡ true) × ((if d then (false, x) else if sent then rest else (false, y)) ≡ rest)
turn true sent rest x y h = absurd (ground (arith, h))
turn false true rest x y h = (refl, refl)
turn false false rest x y h = absurd (ground (arith, h))

no_frames : (fs : List OutboundFrame) → 0 ≡ length fs → fs ≡ []
no_frames [] h = refl
no_frames (f ∷ fs) h = absurd (omega (arith, h))

-- No critical frame arrives in a batch.
abbrev pub quiet : ℕ → List OutboundFrame
quiet n = []

module _ (socket : List (Lane × OutboundFrame) → OutboundFrame → Bool) where
  -- A write that succeeds.
  pub wrote :
      (l : Lane) (f : OutboundFrame) (c : Conn)
      → (write_frame socket l f c).0 ≡ true
      → (write_frame socket l f c).1 ≡ record c { written = c.written ++ (l, f) ∷ [] }
  unfolding write_frame
  wrote l f c h = ground (arith, h)

  one_more :
      (ws : List (Lane × OutboundFrame)) (x : Lane × OutboundFrame)
      → length (ws ++ x ∷ []) ≡ 1 + length ws
  one_more ws x = omega (arith, length-append ws (x ∷ []))

  -- The head of the critical lane.
  crit-Moves :
      (f : OutboundFrame) (fs : List OutboundFrame) (c : Conn)
      → c.crit ≡ f ∷ fs
      → Moves 1 c (record c { crit = fs; written = c.written ++ (crit_lane, f) ∷ [] })
  unfolding Moves queued tagged
  crit-Moves f fs c e = (
    append_assoc c.written ((crit_lane, f) ∷ [])
          (tagged crit_lane fs ++ (tagged broadcast_lane c.broadcast ++ tagged lossy_lane c.lossy))
        ∙ ap
            (λ l.
              c.written
              ++ (tagged crit_lane l
                  ++ (tagged broadcast_lane c.broadcast ++ tagged lossy_lane c.lossy)))
            (sym e),
    one_more c.written (crit_lane, f),
  )

  broadcast-Moves :
      (f : OutboundFrame) (fs : List OutboundFrame) (c : Conn)
      → c.crit ≡ []
      → c.broadcast ≡ f ∷ fs
      → Moves 1 c (record c { broadcast = fs; written = c.written ++ (broadcast_lane, f) ∷ [] })
  unfolding Moves queued tagged
  broadcast-Moves f fs c e b = (
    append_assoc c.written ((broadcast_lane, f) ∷ [])
          (tagged crit_lane c.crit ++ (tagged broadcast_lane fs ++ tagged lossy_lane c.lossy))
        ∙ ap (λ l. c.written ++ l) (simp (e, b)),
    one_more c.written (broadcast_lane, f),
  )

  lossy-Moves :
      (f : OutboundFrame) (fs : List OutboundFrame) (c : Conn)
      → c.crit ≡ []
      → c.broadcast ≡ []
      → c.lossy ≡ f ∷ fs
      → Moves 1 c (record c { lossy = fs; written = c.written ++ (lossy_lane, f) ∷ [] })
  unfolding Moves queued tagged
  lossy-Moves f fs c e b l = (
    append_assoc c.written ((lossy_lane, f) ∷ [])
          (tagged crit_lane c.crit ++ (tagged broadcast_lane c.broadcast ++ tagged lossy_lane fs))
        ∙ ap (λ q. c.written ++ q) (simp (e, b, l)),
    one_more c.written (lossy_lane, f),
  )

  -- A loop that ended with the pump at work: `spent` frames went out and `left` of the budget
  -- remains.
  unfoldable pub Drained : ℕ → Conn → Bool × (ℕ × Conn) → Type 0
  Drained budget c r = (spent : ℕ) × ((spent + r.1.0 ≡ budget) × Moves spent c r.1.1)

  pub none_spent : (b : ℕ) (c : Conn) (ok : Bool) → Drained b c (ok, (b, c))
  unfolding Drained Moves
  none_spent b c ok = (0, (omega (arith), (refl, omega (arith))))

  one_spent :
      (b : ℕ) (c d : Conn) (r : Bool × (ℕ × Conn))
      → Moves 1 c d
      → Drained b d r
      → Drained (suc b) c r
  unfolding Drained
  one_spent b c d r h (spent, (e, g)) =
      (1 + spent, (omega (arith, e), Moves-trans 1 spent c d r.1.1 h g))

  crit_sends :
      (m : ℕ) (fs : List OutboundFrame) (c : Conn)
      → c.crit ≡ fs
      → suc m ≡ length fs
      → (send_crit socket fs c).0 ≡ true
      → Moves 1 c (send_crit socket fs c).1 × (m ≡ length (send_crit socket fs c).1.crit)
  unfolding send_crit
  crit_sends m [] c e l h = absurd (omega (arith, l))
  crit_sends m (f ∷ fs) c e l h =
      subst (λ d. Moves 1 c d × (m ≡ length d.crit))
        (sym (wrote crit_lane f (record c { crit = fs }) h)) (crit-Moves f fs c e, omega (arith, l))

  broadcast_sends :
      (m : ℕ) (fs : List OutboundFrame) (c : Conn)
      → c.crit ≡ []
      → c.broadcast ≡ fs
      → suc m ≡ length fs
      → (send_broadcast socket fs c).0 ≡ true
      → Moves 1 c (send_broadcast socket fs c).1
        × ((m ≡ length (send_broadcast socket fs c).1.broadcast)
            × ((send_broadcast socket fs c).1.crit ≡ []))
  unfolding send_broadcast
  broadcast_sends m [] c n e l h = absurd (omega (arith, l))
  broadcast_sends m (f ∷ fs) c n e l h =
      subst (λ d. Moves 1 c d × ((m ≡ length d.broadcast) × (d.crit ≡ [])))
        (sym (wrote broadcast_lane f (record c { broadcast = fs }) h))
        (broadcast-Moves f fs c n e, (omega (arith, l), n))

  lossy_sends :
      (m : ℕ) (fs : List OutboundFrame) (c : Conn)
      → c.crit ≡ []
      → c.broadcast ≡ []
      → c.lossy ≡ fs
      → suc m ≡ length fs
      → (send_lossy socket fs c).0 ≡ true
      → Moves 1 c (send_lossy socket fs c).1
        × ((m ≡ length (send_lossy socket fs c).1.lossy)
            × (((send_lossy socket fs c).1.crit ≡ [])
                × ((send_lossy socket fs c).1.broadcast ≡ [])))
  unfolding send_lossy
  lossy_sends m [] c n k e l h = absurd (omega (arith, l))
  lossy_sends m (f ∷ fs) c n k e l h =
      subst (λ d. Moves 1 c d × ((m ≡ length d.lossy) × ((d.crit ≡ []) × (d.broadcast ≡ []))))
        (sym (wrote lossy_lane f (record c { lossy = fs }) h))
        (lossy-Moves f fs c n k e, (omega (arith, l), (n, k)))

  pub drain_crit-Drained :
      (m b : ℕ) (c : Conn)
      → m ≡ length c.crit
      → (drain_crit socket m b c).0 ≡ true
      → Drained b c (drain_crit socket m b c)
        × (((drain_crit socket m b c).1.0 ≡ 0) ⊎ ((drain_crit socket m b c).1.1.crit ≡ []))
  unfolding drain_crit
  drain_crit-Drained zero b c e h = (none_spent b c true, inr (no_frames c.crit e))
  drain_crit-Drained (suc m) zero c e h = (none_spent 0 c true, inl refl)
  drain_crit-Drained (suc m) (suc b) c e h =
      let sent = send_crit socket c.crit c in
      let go =
        turn (done c.closed) sent.0 (drain_crit socket m b sent.1) (suc b, c) (suc b, sent.1) h in
      let moved = crit_sends m c.crit c refl e go.0 in
      let rest = drain_crit-Drained m b sent.1 moved.1 (ap (λ r. r.0) (sym go.1) ∙ h) in
      subst (λ r. Drained (suc b) c r × ((r.1.0 ≡ 0) ⊎ (r.1.1.crit ≡ []))) (sym go.1)
        (one_spent b c sent.1 (drain_crit socket m b sent.1) moved.0 rest.0, rest.1)

  pub drain_broadcast-Drained :
      (size m b : ℕ) (c : Conn)
      → c.crit ≡ []
      → m ≡ length c.broadcast
      → (drain_broadcast socket size quiet m b c).0 ≡ true
      → Drained b c (drain_broadcast socket size quiet m b c)
        × (((drain_broadcast socket size quiet m b c).1.1.crit ≡ [])
            × (((drain_broadcast socket size quiet m b c).1.0 ≡ 0)
                ⊎ ((drain_broadcast socket size quiet m b c).1.1.broadcast ≡ [])))
  unfolding drain_broadcast is_empty arrive
  drain_broadcast-Drained size zero b c n e h =
      (none_spent b c true, (n, inr (no_frames c.broadcast e)))
  drain_broadcast-Drained size (suc m) zero c n e h = (none_spent 0 c true, (n, inl refl))
  drain_broadcast-Drained size (suc m) (suc b) c n e h =
      let sent =
        if is_empty c.crit
        then send_broadcast socket c.broadcast c
        else send_crit socket c.crit c in
      let es : sent ≡ send_broadcast socket c.broadcast c =
        ap
          (λ fs.
            if is_empty fs then send_broadcast socket c.broadcast c else send_crit socket c.crit c)
          n in
      let go =
        turn (done c.closed) sent.0 (drain_broadcast socket size quiet m b sent.1) (suc b, c)
          (suc b, sent.1) h in
      let moved =
        subst (λ x. Moves 1 c x.1 × ((m ≡ length x.1.broadcast) × (x.1.crit ≡ []))) (sym es)
          (broadcast_sends m c.broadcast c n refl e (ap (λ x. x.0) (sym es) ∙ go.0)) in
      let rest =
        drain_broadcast-Drained size m b sent.1 moved.1.1 moved.1.0
          (ap (λ r. r.0) (sym go.1) ∙ h) in
      subst
        (λ r. Drained (suc b) c r × ((r.1.1.crit ≡ []) × ((r.1.0 ≡ 0) ⊎ (r.1.1.broadcast ≡ []))))
        (sym go.1)
        (one_spent b c sent.1 (drain_broadcast socket size quiet m b sent.1) moved.0 rest.0, rest.1)

  pub drain_lossy-Drained :
      (m b : ℕ) (c : Conn)
      → c.crit ≡ []
      → c.broadcast ≡ []
      → m ≡ length c.lossy
      → (drain_lossy socket m b c).0 ≡ true
      → Drained b c (drain_lossy socket m b c)
        × (((drain_lossy socket m b c).1.0 ≡ 0) ⊎ (queued (drain_lossy socket m b c).1.1 ≡ []))
  unfolding drain_lossy queued tagged
  drain_lossy-Drained zero b c n k e h =
      (none_spent b c true, inr (simp (n, k, no_frames c.lossy e)))
  drain_lossy-Drained (suc m) zero c n k e h = (none_spent 0 c true, inl refl)
  drain_lossy-Drained (suc m) (suc b) c n k e h =
      let sent = send_lossy socket c.lossy c in
      let go =
        turn (done c.closed) sent.0 (drain_lossy socket m b sent.1) (suc b, c) (suc b, sent.1) h in
      let moved = lossy_sends m c.lossy c n k refl e go.0 in
      let rest =
        drain_lossy-Drained m b sent.1 moved.1.1.0 moved.1.1.1 moved.1.0
          (ap (λ r. r.0) (sym go.1) ∙ h) in
      subst (λ r. Drained (suc b) c r × ((r.1.0 ≡ 0) ⊎ (queued r.1.1 ≡ []))) (sym go.1)
        (one_spent b c sent.1 (drain_lossy socket m b sent.1) moved.0 rest.0, rest.1)
