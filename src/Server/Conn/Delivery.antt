-- ===== src/Server/Conn/Delivery.antt =====
-- What reaches the client from the fan-out, for the connections of apps/lumen/internal/server/ws.go.
use live_auction_system.Prelude.{
  ℕ, true, false, Option, none, some, if◌then◌else◌, ltb, List, [], ◌∷◌, ◌++◌, length, ◌≡◌, refl,
  sym, ap, ◌∙◌, ◌⊎◌, inl, inr, append_assoc, Bool-cases,
}
use mathlib.Core.Path.{subst}
use live_auction_system.Server.Conn.{
  OutboundFrame, Lane, broadcast_lane, Conn, done, close_with_code, close_once,
  enqueue_broadcast_ready, splice, close_code_backpressure_drop,
}
use live_auction_system.Server.Conn.Pump.{stop_pump}
use live_auction_system.Server.Conn.Interleave.{written_broadcast}
use live_auction_system.Server.Conn.Lanes.{append_move, append_last, append_end, broadcast_own}

-- The frame that the pump holds, as a list.
unfoldable pub held : Option OutboundFrame → List OutboundFrame
held none = []
held (some f) = f ∷ []

-- What still waits for the pump, `pend` after the lanes.
unfoldable pub waiting : Conn → List OutboundFrame → List OutboundFrame
unfolding held
waiting c pend = if c.pumping then held c.selected ++ (c.broadcast ++ pend) else []

-- The connection is open, and what is written and what waits is what was offered.
unfoldable pub Open : List OutboundFrame → List OutboundFrame → Conn → Type 0
unfolding done held
Open offered pend c =
    (done c.closed ≡ false)
    × ((c.pumping ≡ true)
        × (written_broadcast c.written ++ (held c.selected ++ (c.broadcast ++ pend)) ≡ offered))

-- The connection is closed, and what is written and what waits is a beginning of what was offered.
unfoldable pub Shut : List OutboundFrame → Conn → Type 0
unfolding done waiting
Shut offered c =
    (done c.closed ≡ true)
    × ((rest : List OutboundFrame) × (written_broadcast c.written ++ (waiting c [] ++ rest)
          ≡ offered))

-- One of the two.
unfoldable pub Ledger : List OutboundFrame → List OutboundFrame → Conn → Type 0
unfolding Open Shut
Ledger offered pend c = Open offered pend c ⊎ Shut offered c

pub close_once-done : (code : ℕ) (o : Option ℕ) → done (close_once code o) ≡ true
unfolding done close_once
close_once-done code none = refl
close_once-done code (some k) = refl

-- A pump at work takes all that waits.
waiting_pumping :
    (c : Conn) (p q : List OutboundFrame)
    → c.pumping ≡ true
    → waiting c p ++ q ≡ held c.selected ++ (c.broadcast ++ (p ++ q))
unfolding waiting
waiting_pumping c p q h = simp (h, append_assoc)

-- Closing leaves the frames that wait in `pend` behind.
pub close-Shut :
    (offered pend : List OutboundFrame) (code : ℕ) (c : Conn)
    → Open offered pend c
    → Shut offered (close_with_code code c)
unfolding Open Shut close_with_code waiting
close-Shut offered pend code c (hd, (hp, h)) = (
  close_once-done code c.closed,
  (pend, ap (λ l. written_broadcast c.written ++ l) (waiting_pumping c [] pend hp) ∙ h),
)

-- A second close changes nothing.
pub close_again :
    (offered : List OutboundFrame) (code : ℕ) (c : Conn)
    → Shut offered c
    → Shut offered (close_with_code code c)
unfolding Shut close_with_code waiting
close_again offered code c (hd, h) = (close_once-done code c.closed, h)

pub close-Ledger :
    (offered pend : List OutboundFrame) (code : ℕ) (c : Conn)
    → Ledger offered pend c
    → Shut offered (close_with_code code c)
unfolding Ledger
close-Ledger offered pend code c (inl h) = close-Shut offered pend code c h
close-Ledger offered pend code c (inr h) = close_again offered code c h

-- The pump that returns leaves all that waits behind.
pub stop-Shut :
    (offered : List OutboundFrame) (c : Conn) → Shut offered c → Shut offered (stop_pump c)
unfolding Shut stop_pump waiting
stop-Shut offered c (hd, (rest, h)) = (hd, (waiting c [] ++ rest, h))

pub fail-Ledger :
    (offered pend : List OutboundFrame) (code : ℕ) (c : Conn)
    → Ledger offered pend c
    → Ledger offered pend (stop_pump (close_with_code code c))
unfolding Ledger
fail-Ledger offered pend code c h =
    inr (stop-Shut offered (close_with_code code c) (close-Ledger offered pend code c h))

-- A frame that the fan-out offers joins the end, or is lost to a closed connection.
pub offer-Shut :
    (offered : List OutboundFrame) (f : OutboundFrame) (c : Conn)
    → Shut offered c
    → Shut (offered ++ f ∷ []) c
unfolding Shut
offer-Shut offered f c (hd, (rest, h)) =
    (hd, (rest ++ f ∷ [], append_end (written_broadcast c.written) (waiting c []) rest offered f h))

pub offer-Open :
    (offered pend : List OutboundFrame) (f : OutboundFrame) (c : Conn)
    → Open offered pend c
    → Open (offered ++ f ∷ []) (pend ++ f ∷ []) c
unfolding Open
offer-Open offered pend f c (hd, (hp, h)) = (
  hd,
  (hp, append_last (written_broadcast c.written) (held c.selected) c.broadcast pend offered f h),
)

-- The branches of `enqueueBroadcastReady`.
ready_closed :
    (n : ℕ) (f : OutboundFrame) (c : Conn)
    → done c.closed ≡ true
    → enqueue_broadcast_ready n f c ≡ c
unfolding enqueue_broadcast_ready
ready_closed n f c h = simp (h)

ready_room :
    (n : ℕ) (f : OutboundFrame) (c : Conn)
    → done c.closed ≡ false
    → ltb (length c.broadcast) n ≡ true
    → enqueue_broadcast_ready n f c ≡ record c { broadcast = c.broadcast ++ f ∷ [] }
unfolding enqueue_broadcast_ready
ready_room n f c h room = simp (h, room)

ready_full :
    (n : ℕ) (f : OutboundFrame) (c : Conn)
    → done c.closed ≡ false
    → ltb (length c.broadcast) n ≡ false
    → enqueue_broadcast_ready n f c ≡ close_with_code close_code_backpressure_drop c
unfolding enqueue_broadcast_ready
ready_full n f c h full = simp (h, full)

-- The first frame that waits behind the broadcast lane enters it.
enters-Open :
    (offered : List OutboundFrame) (f : OutboundFrame) (fs : List OutboundFrame) (c : Conn)
    → Open offered (f ∷ fs) c
    → Open offered fs (record c { broadcast = c.broadcast ++ f ∷ [] })
unfolding Open
enters-Open offered f fs c (hd, (hp, h)) = (
  hd,
  (
    hp,
    ap (λ l. written_broadcast c.written ++ (held c.selected ++ l)) (append_move c.broadcast f fs)
        ∙ h,
  ),
)

-- It enters, or the connection is closed.
pub ready-Ledger :
    (n : ℕ) (offered : List OutboundFrame) (f : OutboundFrame) (fs : List OutboundFrame) (c : Conn)
    → Ledger offered (f ∷ fs) c
    → Ledger offered fs (enqueue_broadcast_ready n f c)
unfolding Ledger Open Shut
ready-Ledger n offered f fs c (inl h) = elim (Bool-cases (ltb (length c.broadcast) n)) [
  | inl room ↦
      subst (λ d. Ledger offered fs d) (sym (ready_room n f c h.0 room))
        (inl (enters-Open offered f fs c h))
  | inr full ↦
      subst (λ d. Ledger offered fs d) (sym (ready_full n f c h.0 full))
        (inr (close-Shut offered (f ∷ fs) close_code_backpressure_drop c h))
]
ready-Ledger n offered f fs c (inr h) =
    subst (λ d. Ledger offered fs d) (sym (ready_closed n f c h.0)) (inr h)

pub splice-Ledger :
    (n : ℕ) (offered fs : List OutboundFrame) (c : Conn)
    → Ledger offered fs c
    → Ledger offered [] (splice n fs c)
unfolding splice
splice-Ledger n offered [] c h = h
splice-Ledger n offered (f ∷ fs) c h =
    splice-Ledger n offered fs (enqueue_broadcast_ready n f c) (ready-Ledger n offered f fs c h)

-- A write from another lane leaves the broadcast lane's part of the wire as it is.
pub other-Ledger :
    (offered pend : List OutboundFrame) (c : Conn) (ws : List (Lane × OutboundFrame))
    → written_broadcast ws ≡ written_broadcast c.written
    → Ledger offered pend c
    → Ledger offered pend (record c { written = ws })
unfolding Ledger Open Shut waiting
other-Ledger offered pend c ws e (inl (hd, (hp, h))) =
    inl (hd, (hp, ap (λ l. l ++ (held c.selected ++ (c.broadcast ++ pend))) e ∙ h))
other-Ledger offered pend c ws e (inr (hd, (rest, h))) =
    inr (hd, (rest, ap (λ l. l ++ (waiting c [] ++ rest)) e ∙ h))

-- The frame that the pump holds goes from what waits to what is written.
held_written :
    (q : List OutboundFrame) (f : OutboundFrame) (c : Conn)
    → c.selected ≡ some f
    → written_broadcast (c.written ++ (broadcast_lane, f) ∷ []) ++ (c.broadcast ++ q)
      ≡ written_broadcast c.written ++ (held c.selected ++ (c.broadcast ++ q))
unfolding held
held_written q f c hs =
    ap (λ l. l ++ (c.broadcast ++ q)) (broadcast_own c.written f)
    ∙ append_move (written_broadcast c.written) f (c.broadcast ++ q)
    ∙ ap (λ o. written_broadcast c.written ++ (held o ++ (c.broadcast ++ q))) (sym hs)

-- The frame that the pump holds is written.
pub selected-Ledger :
    (offered pend : List OutboundFrame) (f : OutboundFrame) (c : Conn)
    → c.pumping ≡ true
    → c.selected ≡ some f
    → Ledger offered pend c
    → Ledger offered pend
        (record c { selected = none; written = c.written ++ (broadcast_lane, f) ∷ [] })
unfolding Ledger Open Shut held
selected-Ledger offered pend f c hp hs (inl (hd, (_, h))) =
    inl (hd, (hp, held_written pend f c hs ∙ h))
selected-Ledger offered pend f c hp hs (inr (hd, (rest, h))) =
    let c2 : Conn = record c { selected = none; written = c.written ++ (broadcast_lane, f) ∷ [] } in
    inr (
      hd,
      (
        rest,
        ap (λ l. written_broadcast c2.written ++ l) (waiting_pumping c2 [] rest hp)
            ∙ held_written rest f c hs
            ∙ ap (λ l. written_broadcast c.written ++ l) (sym (waiting_pumping c [] rest hp))
            ∙ h,
      ),
    )

-- The pump takes the head of the broadcast lane.
select_waits :
    (q : List OutboundFrame) (f : OutboundFrame) (fs : List OutboundFrame) (c : Conn)
    → c.selected ≡ none
    → c.broadcast ≡ f ∷ fs
    → held c.selected ++ (c.broadcast ++ q) ≡ f ∷ (fs ++ q)
unfolding held
select_waits q f fs c hs hb = simp (hs, hb)

pub selects-Ledger :
    (offered pend : List OutboundFrame) (f : OutboundFrame) (fs : List OutboundFrame) (c : Conn)
    → c.selected ≡ none
    → c.broadcast ≡ f ∷ fs
    → Ledger offered pend c
    → Ledger offered pend (record c { selected = some f; broadcast = fs })
unfolding Ledger Open Shut held waiting
selects-Ledger offered pend f fs c hs hb (inl (hd, (hp, h))) = inl (
  hd,
  (hp, ap (λ l. written_broadcast c.written ++ l) (sym (select_waits pend f fs c hs hb)) ∙ h),
)
selects-Ledger offered pend f fs c hs hb (inr (hd, (rest, h))) = inr (
  hd,
  (
    rest,
    ap (λ l. written_broadcast c.written ++ ((if c.pumping then l else []) ++ rest))
          (sym (select_waits [] f fs c hs hb))
        ∙ h,
  ),
)
