-- ===== src/Server/Hub/Rising.antt =====
-- What the cache keeps of the observed events, `updateRoomStateFromEvent` and `updateRoomState` of
-- apps/lumen/internal/server/ws.go: the highest price and the latest end.
use live_auction_system.Prelude.{
  ℕ, ◌≤◌, ◌≡◌, ◌==◌, ◌∙◌, Bool, true, false, ◌||◌, Option, none, some, arith, List, [], ◌∷◌, refl,
  ap, if◌then◌else◌,
}
use live_auction_system.Prelude.Assoc.{insert}
use live_auction_system.Model.Events.{
  bid_accepted, auction_extended, auction_sold, auction_no_bid, auction_cancelled, auction_revealed,
  sealed_bid_received, all_pay_forfeit, type_bid_accepted, type_auction_extended, type_auction_sold,
  type_auction_no_bid, type_auction_cancelled, type_sealed_bid_received, type_auction_revealed,
  type_all_pay_forfeit, type_other,
}
use live_auction_system.Server.Hub.{
  HubState, RoomState, Wire, decoded, malformed, observe, room_state_snap, ratchet,
  update_room_state, mark_terminal_and_update, update_room_state_from_event, is_sold,
}
use live_auction_system.Server.Hub.Ratchet.{IsCached, AllWithin, observe-IsCached, snap-insert}

-- The events after which the gateway forgets the room.
unfoldable pub forgets : Wire → Bool
forgets (decoded (auction_sold _)) = true
forgets (decoded (auction_no_bid _)) = true
forgets (decoded (auction_cancelled _)) = true
forgets (decoded (bid_accepted p)) = is_sold p.status
forgets (malformed type_auction_sold) = true
forgets (malformed type_auction_no_bid) = true
forgets (malformed type_auction_cancelled) = true
forgets _ = false

unfoldable pub any_forgets : List Wire → Bool
unfolding forgets
any_forgets [] = false
any_forgets (w ∷ ws) = forgets w || any_forgets ws

abbrev pub AtLeast : ℕ → Option ℕ → Type 0
AtLeast n none = 1 ≤ 0
AtLeast n (some m) = n ≤ m

abbrev pub PriceUp : Option ℕ → Option ℕ → Type 0
PriceUp none o = Unit {0}
PriceUp (some n) o = AtLeast n o

-- The price and the end have not gone down, the terminal flag is kept, and so is the mode.
pub record IsAbove (old new : RoomState) : Type 0 where
  pub price_up : PriceUp old.price_cents new.price_cents
  pub end_up : old.end_at_ms ≤ new.end_at_ms
  pub still_terminal : old.terminal ≡ true → new.terminal ≡ true
  pub same_mode : new.mode ≡ old.mode

-- The cache entry has taken in the event.
abbrev pub Carried : Wire → RoomState → Type 0
Carried (decoded (bid_accepted p)) rs =
    AtLeast p.amount_cents rs.price_cents × (p.end_at_ms ≤ rs.end_at_ms)
Carried (decoded (auction_extended p)) rs = p.end_at_ms ≤ rs.end_at_ms
Carried (decoded (auction_revealed p)) rs =
    AtLeast p.amount_cents rs.price_cents × (rs.terminal ≡ true)
Carried (malformed type_auction_revealed) rs = rs.terminal ≡ true
Carried _ rs = Unit {0}

abbrev pub AllCarried : List Wire → RoomState → Type 0
AllCarried [] rs = Unit {0}
AllCarried (w ∷ ws) rs = Carried w rs × AllCarried ws rs

IsAbove-refl : (a : RoomState) → IsAbove a a
IsAbove-refl a = ground arith

IsAbove-trans : (a b c : RoomState) → IsAbove a b → IsAbove b c → IsAbove a c
IsAbove-trans a b c p q = record {
  price_up = ground (arith, p.price_up, q.price_up);
  end_up = omega (arith, p.end_up, q.end_up);
  still_terminal = λ t. q.still_terminal (p.still_terminal t);
  same_mode = q.same_mode ∙ p.same_mode;
}

AtLeast-up :
    (n : ℕ) (a b : RoomState) → IsAbove a b → AtLeast n a.price_cents → AtLeast n b.price_cents
AtLeast-up n a b p h = ground (arith, p.price_up, h)

Carried-up : (w : Wire) (a b : RoomState) → IsAbove a b → Carried w a → Carried w b
Carried-up (decoded (bid_accepted p)) a b u h =
    (AtLeast-up p.amount_cents a b u h.0, omega (arith, u.end_up, h.1))
Carried-up (decoded (auction_extended p)) a b u h = omega (arith, u.end_up, h)
Carried-up (decoded (auction_revealed p)) a b u h =
    (AtLeast-up p.amount_cents a b u h.0, u.still_terminal h.1)
Carried-up (malformed type_auction_revealed) a b u h = u.still_terminal h
Carried-up (decoded (auction_sold p)) a b u h = tt
Carried-up (decoded (auction_no_bid p)) a b u h = tt
Carried-up (decoded (auction_cancelled p)) a b u h = tt
Carried-up (decoded (sealed_bid_received p)) a b u h = tt
Carried-up (decoded (all_pay_forfeit p)) a b u h = tt
Carried-up (malformed type_bid_accepted) a b u h = tt
Carried-up (malformed type_auction_extended) a b u h = tt
Carried-up (malformed type_auction_sold) a b u h = tt
Carried-up (malformed type_auction_no_bid) a b u h = tt
Carried-up (malformed type_auction_cancelled) a b u h = tt
Carried-up (malformed type_sealed_bid_received) a b u h = tt
Carried-up (malformed type_all_pay_forfeit) a b u h = tt
Carried-up (malformed (type_other n)) a b u h = tt

ratchet_rises :
    (price : Option ℕ) (end_at_ms : ℕ) (rs : RoomState)
    → IsAbove rs (ratchet price end_at_ms rs)
      × (PriceUp price (ratchet price end_at_ms rs).price_cents
          × (end_at_ms ≤ (ratchet price end_at_ms rs).end_at_ms))
unfolding ratchet
ratchet_rises price end_at_ms rs = ground arith

module _ (aid : ℕ) (real : (aid == 0) ≡ false) where
  -- What one event does to the entry: it rises, and it takes the event in.
  Taken : Wire → HubState → Type 0
  Taken w h =
      IsAbove (room_state_snap h aid) (room_state_snap (update_room_state_from_event aid w h) aid)
      × Carried w (room_state_snap (update_room_state_from_event aid w h) aid)

  update-snap :
      (price : Option ℕ) (end_at_ms : ℕ) (h : HubState)
      → room_state_snap (update_room_state aid price end_at_ms h) aid
        ≡ ratchet price end_at_ms (room_state_snap h aid)
  unfolding update_room_state
  update-snap price end_at_ms h =
      ap
        (λ b.
          room_state_snap
            (if b then h else insert aid (ratchet price end_at_ms (room_state_snap h aid)) h) aid)
        real
      ∙ snap-insert aid (ratchet price end_at_ms (room_state_snap h aid)) h

  mark-snap :
      (price : Option ℕ) (h : HubState)
      → room_state_snap (mark_terminal_and_update aid price 0 h) aid
        ≡ record (ratchet price 0 (room_state_snap h aid)) { terminal = true }
  unfolding mark_terminal_and_update
  mark-snap price h =
      ap
        (λ b.
          room_state_snap
            (if b
              then h
              else insert aid (record (ratchet price 0 (room_state_snap h aid)) { terminal = true })
                  h)
            aid)
        real
      ∙ snap-insert aid (record (ratchet price 0 (room_state_snap h aid)) { terminal = true }) h

  mark_rises :
      (price : Option ℕ) (rs : RoomState)
      → IsAbove rs (record (ratchet price 0 rs) { terminal = true })
        × PriceUp price (ratchet price 0 rs).price_cents
  mark_rises price rs =
      let (up, (taken, later)) = ratchet_rises price 0 rs in
      (
        record {
          price_up = up.price_up;
          end_up = up.end_up;
          still_terminal = λ t. refl;
          same_mode = up.same_mode;
        },
        taken,
      )

  event-Taken : (w : Wire) (h : HubState) → forgets w ≡ false → Taken w h
  unfolding Taken update_room_state_from_event forgets
  event-Taken (decoded (bid_accepted p)) h f =
      let (up, (taken, later)) =
        ratchet_rises (some p.amount_cents) p.end_at_ms (room_state_snap h aid) in
      rw (f, update_room_state_from_event, update-snap (some p.amount_cents) p.end_at_ms h)
        (up, (taken, later))
  event-Taken (decoded (auction_extended p)) h f =
      let (up, (taken, later)) = ratchet_rises none p.end_at_ms (room_state_snap h aid) in
      rw (update-snap none p.end_at_ms h) (up, later)
  event-Taken (decoded (auction_revealed p)) h f =
      let (up, taken) = mark_rises (some p.amount_cents) (room_state_snap h aid) in
      rw (mark-snap (some p.amount_cents) h) (up, (taken, refl))
  event-Taken (malformed type_auction_revealed) h f =
      let (up, taken) = mark_rises none (room_state_snap h aid) in rw (mark-snap none h) (up, refl)
  event-Taken (decoded (sealed_bid_received p)) h f = (IsAbove-refl (room_state_snap h aid), tt)
  event-Taken (decoded (all_pay_forfeit p)) h f = (IsAbove-refl (room_state_snap h aid), tt)
  event-Taken (malformed type_bid_accepted) h f = (IsAbove-refl (room_state_snap h aid), tt)
  event-Taken (malformed type_auction_extended) h f = (IsAbove-refl (room_state_snap h aid), tt)
  event-Taken (malformed type_sealed_bid_received) h f = (IsAbove-refl (room_state_snap h aid), tt)
  event-Taken (malformed type_all_pay_forfeit) h f = (IsAbove-refl (room_state_snap h aid), tt)
  event-Taken (malformed (type_other n)) h f = (IsAbove-refl (room_state_snap h aid), tt)
  event-Taken (decoded (auction_sold p)) h f = absurd (ground (arith, f))
  event-Taken (decoded (auction_no_bid p)) h f = absurd (ground (arith, f))
  event-Taken (decoded (auction_cancelled p)) h f = absurd (ground (arith, f))
  event-Taken (malformed type_auction_sold) h f = absurd (ground (arith, f))
  event-Taken (malformed type_auction_no_bid) h f = absurd (ground (arith, f))
  event-Taken (malformed type_auction_cancelled) h f = absurd (ground (arith, f))

  observe_rises :
      (ws : List Wire) (h : HubState)
      → any_forgets ws ≡ false
      → IsAbove (room_state_snap h aid) (room_state_snap (observe aid ws h) aid)
        × AllCarried ws (room_state_snap (observe aid ws h) aid)
  unfolding observe any_forgets Taken
  observe_rises [] h f = (IsAbove-refl (room_state_snap h aid), tt)
  observe_rises (w ∷ ws) h f =
      let h' = update_room_state_from_event aid w h in
      let one = event-Taken w h (ground (arith, f)) in
      let rest = observe_rises ws h' (ground (arith, f)) in
      (
        IsAbove-trans (room_state_snap h aid) (room_state_snap h' aid)
            (room_state_snap (observe aid ws h') aid) one.0 rest.0,
        (
          Carried-up w (room_state_snap h' aid) (room_state_snap (observe aid ws h') aid) rest.0
              one.1,
          rest.1,
        ),
      )

  -- While the gateway observes events of which none makes it forget the room, and whose amounts and ends
  -- are within bounds, as those in the cache were: the cached price and end never go down, are at least
  -- those of every observed event and still within the bounds; a revealed list has set the terminal flag,
  -- nothing resets it, and the mode is as it was.
  pub observe-IsAbove :
      (ws : List Wire) (h : HubState) (price end : ℕ)
      → any_forgets ws ≡ false
      → AllWithin price end ws
      → IsCached price end (room_state_snap h aid)
      → IsAbove (room_state_snap h aid) (room_state_snap (observe aid ws h) aid)
        × (AllCarried ws (room_state_snap (observe aid ws h) aid)
            × IsCached price end (room_state_snap (observe aid ws h) aid))
  observe-IsAbove ws h price end f within cached =
      let (up, taken) = observe_rises ws h f in
      (up, (taken, observe-IsCached aid price end ws h within cached))
