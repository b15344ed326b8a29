-- ===== src/Server/Conn/Steps.antt =====
-- The steps and the batch of writePump, apps/lumen/internal/server/ws.go, and the fan-out's frames.
use live_auction_system.Prelude.{
  ℕ, zero, suc, Bool, true, false, Option, none, some, if◌then◌else◌, List, [], ◌∷◌, ◌++◌, length,
  ◌≡◌, ◌∙◌, refl, sym, inl, inr, arith,
}
use mathlib.Core.Path.{subst}
use live_auction_system.Server.Conn.{
  enqueue_critical, OutboundFrame, Lane, crit_lane, broadcast_lane, lossy_lane, Conn, done,
  close_with_code,
}
use live_auction_system.Server.Conn.Pump.{
  accepts, write_frame, send_crit, send_broadcast, send_lossy, send_selected, drain_crit, arrive,
  drain_broadcast, drain_lossy, go_on, coalesce_drain, is_empty, stop_pump, select_broadcast,
  max_drain_frames,
}
use live_auction_system.Server.Conn.Runs.{critical-Ledger}
use live_auction_system.Server.Conn.Delivery.{Open, Ledger, stop-Shut, close_once-done}
use live_auction_system.Server.Conn.Writes.{
  crit-Ledger, lossy-Ledger, write_selected-Ledger, select-Ledger,
}

-- After a step of the pump: it is at work, with the given frame in hand, or the connection is closed.
unfoldable pub Holds : Option OutboundFrame → Bool → Conn → Type 0
unfolding done
Holds o true c = (c.pumping ≡ true) × (c.selected ≡ o)
Holds o false c = done c.closed ≡ true

-- The ledger is kept too.
unfoldable pub Kept :
    List OutboundFrame → List OutboundFrame → Option OutboundFrame → Bool → Conn → Type 0
unfolding Holds
Kept offered pend o ok c = Ledger offered pend c × Holds o ok c

pub stop-Ledger :
    (offered pend : List OutboundFrame) (c : Conn)
    → done c.closed ≡ true
    → Ledger offered pend c
    → Ledger offered pend (stop_pump c)
unfolding Ledger Open
stop-Ledger offered pend c e (inl h) = absurd (ground (arith, h.0, e))
stop-Ledger offered pend c e (inr h) = inr (stop-Shut offered c h)

-- What both branches of a test have.
pub either_way :
    {A : Type 0} (P : A → Type 0) (b : Bool) (x y : A) → P x → P y → P (if b then x else y)
either_way P true x y hx hy = hx
either_way P false x y hx hy = hy

module _ (n : ℕ) (socket : List (Lane × OutboundFrame) → OutboundFrame → Bool)
    (offered pend : List OutboundFrame) where
  write-Holds :
      (o : Option OutboundFrame) (l : Lane) (f : OutboundFrame) (c : Conn)
      → c.pumping ≡ true
      → c.selected ≡ o
      → Holds o (write_frame socket l f c).0 (write_frame socket l f c).1
  unfolding write_frame stop_pump close_with_code Holds
  write-Holds o l f c hp hs =
      either_way {A = Bool × Conn} (λ r. Holds o r.0 r.1) (accepts socket f c)
        (true, record c { written = c.written ++ (l, f) ∷ [] })
        (false, stop_pump (close_with_code 0 c)) (hp, hs) (close_once-done 0 c.closed)

  pub send_crit-Kept :
      (o : Option OutboundFrame) (fs : List OutboundFrame) (c : Conn)
      → Kept offered pend o true c
      → Kept offered pend o (send_crit socket fs c).0 (send_crit socket fs c).1
  unfolding Kept send_crit Holds
  send_crit-Kept o [] c h = h
  send_crit-Kept o (f ∷ fs) c h = (
    crit-Ledger n socket offered pend (f ∷ fs) c h.0,
    write-Holds o crit_lane f (record c { crit = fs }) h.1.0 h.1.1,
  )

  pub send_lossy-Kept :
      (o : Option OutboundFrame) (fs : List OutboundFrame) (c : Conn)
      → Kept offered pend o true c
      → Kept offered pend o (send_lossy socket fs c).0 (send_lossy socket fs c).1
  unfolding Kept send_lossy Holds
  send_lossy-Kept o [] c h = h
  send_lossy-Kept o (f ∷ fs) c h = (
    lossy-Ledger n socket offered pend (f ∷ fs) c h.0,
    write-Holds o lossy_lane f (record c { lossy = fs }) h.1.0 h.1.1,
  )

  pub send_selected-Kept :
      (o : Option OutboundFrame) (c : Conn)
      → Kept offered pend o true c
      → Kept offered pend none (send_selected socket o c).0 (send_selected socket o c).1
  unfolding Kept send_selected Holds
  send_selected-Kept none c h = h
  send_selected-Kept (some f) c h = (
    write_selected-Ledger n socket offered pend (some f) c h.1.0 h.1.1 h.0,
    write-Holds none broadcast_lane f (record c { selected = none }) h.1.0 refl,
  )

  pub select-Kept :
      (o : Option OutboundFrame) (fs : List OutboundFrame) (c : Conn)
      → c.selected ≡ o
      → c.broadcast ≡ fs
      → Ledger offered pend c
      → c.pumping ≡ true
      → Kept offered pend (select_broadcast o fs c).selected true (select_broadcast o fs c)
  unfolding Kept Holds select_broadcast
  select-Kept none [] c hs hb h hp = (h, (hp, refl))
  select-Kept none (f ∷ fs) c hs hb h hp =
      (select-Ledger n socket offered pend none (f ∷ fs) c hs hb h, (hp, refl))
  select-Kept (some f) fs c hs hb h hp = (h, (hp, refl))

  -- `send_broadcast` is the selection of a frame and its write.
  send_broadcast-Kept :
      (fs : List OutboundFrame) (c : Conn)
      → c.broadcast ≡ fs
      → Kept offered pend none true c
      → Kept offered pend none (send_broadcast socket fs c).0 (send_broadcast socket fs c).1
  unfolding Kept Holds send_broadcast send_selected select_broadcast
  send_broadcast-Kept [] c e h = h
  send_broadcast-Kept (f ∷ fs) c e h =
      let d = select-Kept none (f ∷ fs) c h.1.1 e h.0 h.1.0 in
      subst
        (λ o.
          Kept offered pend none
            (write_frame socket broadcast_lane f (record c { broadcast = fs; selected = o })).0
            (write_frame socket broadcast_lane f (record c { broadcast = fs; selected = o })).1)
        (sym h.1.1) (send_selected-Kept (some f) (record c { broadcast = fs; selected = some f }) d)

  -- A turn of a loop: `done`, or a write and, where it succeeds, the rest.
  turn-Kept :
      (o : Option OutboundFrame) (d : Bool) (c : Conn) (b : ℕ) (sent : Bool × Conn)
      (rest : Bool × (ℕ × Conn))
      → done c.closed ≡ d
      → Ledger offered pend c
      → Kept offered pend o sent.0 sent.1
      → (Kept offered pend o true sent.1 → Kept offered pend o rest.0 rest.1.1)
      → Kept offered pend o
          (if d then (false, (b, c)) else if sent.0 then rest else (false, (b, sent.1))).0
          (if d then (false, (b, c)) else if sent.0 then rest else (false, (b, sent.1))).1.1
  unfolding Kept Holds
  turn-Kept o true c b sent rest e h hs next = (h, e)
  turn-Kept o false c b (true, s) rest e h hs next = next hs
  turn-Kept o false c b (false, s) rest e h hs next = hs

  drain_crit-Kept :
      (m b : ℕ) (c : Conn)
      → Kept offered pend none true c
      → Kept offered pend none (drain_crit socket m b c).0 (drain_crit socket m b c).1.1
  unfolding drain_crit Kept
  drain_crit-Kept zero b c h = h
  drain_crit-Kept (suc m) zero c h = h
  drain_crit-Kept (suc m) (suc b) c h =
      let sent = send_crit socket c.crit c in
      turn-Kept none (done c.closed) c (suc b) sent (drain_crit socket m b sent.1) refl h.0
        (send_crit-Kept none c.crit c h) (λ k. drain_crit-Kept m b sent.1 k)

  drain_lossy-Kept :
      (m b : ℕ) (c : Conn)
      → Kept offered pend none true c
      → Kept offered pend none (drain_lossy socket m b c).0 (drain_lossy socket m b c).1.1
  unfolding drain_lossy Kept
  drain_lossy-Kept zero b c h = h
  drain_lossy-Kept (suc m) zero c h = h
  drain_lossy-Kept (suc m) (suc b) c h =
      let sent = send_lossy socket c.lossy c in
      turn-Kept none (done c.closed) c (suc b) sent (drain_lossy socket m b sent.1) refl h.0
        (send_lossy-Kept none c.lossy c h) (λ k. drain_lossy-Kept m b sent.1 k)

  critical_keeps :
      (f : OutboundFrame) (c : Conn)
      → ((enqueue_critical n f c).pumping ≡ c.pumping)
        × ((enqueue_critical n f c).selected ≡ c.selected)
  unfolding enqueue_critical close_with_code
  critical_keeps f c = ground arith

  pub arrive-Kept :
      (late : List OutboundFrame) (c : Conn)
      → Kept offered pend none true c
      → Kept offered pend none true (arrive n late c)
  unfolding arrive Kept Holds
  arrive-Kept [] c h = h
  arrive-Kept (f ∷ late) c h = arrive-Kept late (enqueue_critical n f c) (
    critical-Ledger n socket offered pend f c h.0,
    ((critical_keeps f c).0 ∙ h.1.0, (critical_keeps f c).1 ∙ h.1.1),
  )

  drain_broadcast-Kept :
      (late : ℕ → List OutboundFrame) (m b : ℕ) (c : Conn)
      → Kept offered pend none true c
      → Kept offered pend none
          (drain_broadcast socket n late m b c).0
          (drain_broadcast socket n late m b c).1.1
  unfolding drain_broadcast Kept
  drain_broadcast-Kept late zero b c h = h
  drain_broadcast-Kept late (suc m) zero c h = h
  drain_broadcast-Kept late (suc m) (suc b) c h =
      let d = arrive n (late m) c in
      let k = arrive-Kept (late m) c h in
      let sent =
        if is_empty d.crit
        then send_broadcast socket d.broadcast d
        else send_crit socket d.crit d in
      turn-Kept none (done d.closed) d (suc b) sent (drain_broadcast socket n late m b sent.1) refl
        k.0
        (either_way {A = Bool × Conn} (λ r. Kept offered pend none r.0 r.1) (is_empty d.crit)
          (send_broadcast socket d.broadcast d) (send_crit socket d.crit d)
          (send_broadcast-Kept d.broadcast d refl k) (send_crit-Kept none d.crit d k))
        (λ q. drain_broadcast-Kept late m b sent.1 q)

  go_on-Kept :
      (r : Bool × (ℕ × Conn)) (next : ℕ → Conn → Bool × (ℕ × Conn))
      → Kept offered pend none r.0 r.1.1
      → ((b : ℕ) (c : Conn)
          → Kept offered pend none true c
          → Kept offered pend none (next b c).0 (next b c).1.1)
      → Kept offered pend none (go_on r next).0 (go_on r next).1.1
  unfolding go_on
  go_on-Kept (true, (b, c)) next h k = k b c h
  go_on-Kept (false, at) next h k = h

  pub coalesce_drain-Kept :
      (late : ℕ → List OutboundFrame) (c : Conn)
      → Kept offered pend none true c
      → Kept offered pend none
          (coalesce_drain socket n late c).0
          (coalesce_drain socket n late c).1.1
  unfolding coalesce_drain
  coalesce_drain-Kept late c h =
      let one = drain_crit socket (length c.crit) max_drain_frames c in
      let two = go_on one (λ b d. drain_broadcast socket n late (length d.broadcast) b d) in
      let three = go_on two (λ b d. drain_crit socket (length d.crit) b d) in
      go_on-Kept three (λ b d. drain_lossy socket (length d.lossy) b d)
        (go_on-Kept two (λ b d. drain_crit socket (length d.crit) b d)
          (go_on-Kept one (λ b d. drain_broadcast socket n late (length d.broadcast) b d)
            (drain_crit-Kept (length c.crit) max_drain_frames c h)
            (λ b d k. drain_broadcast-Kept late (length d.broadcast) b d k))
          (λ b d k. drain_crit-Kept (length d.crit) b d k))
        (λ b d k. drain_lossy-Kept (length d.lossy) b d k)
