-- ===== src/Server/Hub/Ratchet.antt =====
-- The cached price and end never exceed what the observed events carry.
use live_auction_system.Prelude.{
  ℕ, ◌≤◌, ◌≡◌, true, Option, none, some, arith, List, [], ◌∷◌, Bool-cases, inl, inr,
}
use live_auction_system.Prelude.Assoc.{insert, delete, lookup-insert, lookup-delete}
use live_auction_system.Model.Events.{
  bid_accepted, auction_extended, auction_sold, auction_no_bid, auction_cancelled, auction_revealed,
  sealed_bid_received, all_pay_forfeit, type_bid_accepted, type_auction_extended, type_auction_sold,
  type_auction_no_bid, type_auction_cancelled, type_sealed_bid_received, type_auction_revealed,
  type_all_pay_forfeit, type_other,
}
use live_auction_system.Server.Hub.{
  HubState, RoomState, Wire, decoded, malformed, observe, room_state_snap, ratchet,
  update_room_state, mark_terminal_and_update, drop_room_state, update_room_state_from_event,
  is_sold,
}

-- The amounts and ends of an event are at most `price` and `end`.
abbrev pub WithinEvent : ℕ → ℕ → Wire → Type 0
WithinEvent price end (decoded (bid_accepted p)) = (p.amount_cents ≤ price) × (p.end_at_ms ≤ end)
WithinEvent price end (decoded (auction_extended p)) = p.end_at_ms ≤ end
WithinEvent price end (decoded (auction_sold p)) = p.amount_cents ≤ price
WithinEvent price end (decoded (auction_revealed p)) = p.amount_cents ≤ price
WithinEvent price end _ = Unit {0}

abbrev pub AllWithin : ℕ → ℕ → List Wire → Type 0
AllWithin price end [] = Unit {0}
AllWithin price end (w ∷ ws) = WithinEvent price end w × AllWithin price end ws

abbrev pub AtMost : ℕ → Option ℕ → Type 0
AtMost price none = Unit {0}
AtMost price (some n) = n ≤ price

-- A cache entry within the bounds.
pub record IsCached (price : ℕ) (end : ℕ) (rs : RoomState) : Type 0 where
  pub price_within : AtMost price rs.price_cents
  pub end_within : rs.end_at_ms ≤ end

ratchet-IsCached :
    (price end : ℕ) (p : Option ℕ) (e : ℕ) (rs : RoomState)
    → AtMost price p
    → e ≤ end
    → IsCached price end rs
    → IsCached price end (ratchet p e rs)
unfolding ratchet
ratchet-IsCached price end p e rs hp he c = ground arith

pub snap-insert :
    (aid : ℕ) (rs : RoomState) (h : HubState) → room_state_snap (insert aid rs h) aid ≡ rs
unfolding room_state_snap
snap-insert aid rs h = ground (arith, lookup-insert aid aid rs h)

snap-delete :
    (aid price end : ℕ) (h : HubState) → IsCached price end (room_state_snap (delete aid h) aid)
unfolding room_state_snap
snap-delete aid price end h = ground (arith, lookup-delete aid aid h)

update-IsCached :
    (aid price end : ℕ) (p : Option ℕ) (e : ℕ) (h : HubState)
    → AtMost price p
    → e ≤ end
    → IsCached price end (room_state_snap h aid)
    → IsCached price end (room_state_snap (update_room_state aid p e h) aid)
unfolding update_room_state
update-IsCached aid price end p e h hp he c = ground (
  arith,
  snap-insert aid (ratchet p e (room_state_snap h aid)) h,
  ratchet-IsCached price end p e (room_state_snap h aid) hp he c,
)

mark-IsCached :
    (aid price end : ℕ) (p : Option ℕ) (h : HubState)
    → AtMost price p
    → IsCached price end (room_state_snap h aid)
    → IsCached price end (room_state_snap (mark_terminal_and_update aid p 0 h) aid)
unfolding mark_terminal_and_update
mark-IsCached aid price end p h hp c = ground (
  arith,
  snap-insert aid (record (ratchet p 0 (room_state_snap h aid)) { terminal = true }) h,
  ratchet-IsCached price end p 0 (room_state_snap h aid) hp,
)

event-IsCached :
    (aid price end : ℕ) (w : Wire) (h : HubState)
    → WithinEvent price end w
    → IsCached price end (room_state_snap h aid)
    → IsCached price end (room_state_snap (update_room_state_from_event aid w h) aid)
unfolding update_room_state_from_event drop_room_state
event-IsCached aid price end (decoded (bid_accepted p)) h a c =
    elim (Bool-cases (is_sold p.status)) [
      | inl sold ↦
          rw (sold, update_room_state_from_event)
            (snap-delete aid price end
              (mark_terminal_and_update aid (some p.amount_cents) p.end_at_ms h))
      | inr unsold ↦
          rw (unsold, update_room_state_from_event)
            (update-IsCached aid price end (some p.amount_cents) p.end_at_ms h a.0 a.1 c)
    ]
event-IsCached aid price end (decoded (auction_extended p)) h a c =
    update-IsCached aid price end none p.end_at_ms h tt a c
event-IsCached aid price end (decoded (auction_sold p)) h a c =
    snap-delete aid price end (mark_terminal_and_update aid (some p.amount_cents) 0 h)
event-IsCached aid price end (decoded (auction_no_bid p)) h a c =
    snap-delete aid price end (mark_terminal_and_update aid none 0 h)
event-IsCached aid price end (decoded (auction_cancelled p)) h a c =
    snap-delete aid price end (mark_terminal_and_update aid none 0 h)
event-IsCached aid price end (decoded (auction_revealed p)) h a c =
    mark-IsCached aid price end (some p.amount_cents) h a c
event-IsCached aid price end (decoded (sealed_bid_received p)) h a c = c
event-IsCached aid price end (decoded (all_pay_forfeit p)) h a c = c
event-IsCached aid price end (malformed type_bid_accepted) h a c = c
event-IsCached aid price end (malformed type_auction_extended) h a c = c
event-IsCached aid price end (malformed type_auction_sold) h a c =
    snap-delete aid price end (mark_terminal_and_update aid none 0 h)
event-IsCached aid price end (malformed type_auction_no_bid) h a c =
    snap-delete aid price end (mark_terminal_and_update aid none 0 h)
event-IsCached aid price end (malformed type_auction_cancelled) h a c =
    snap-delete aid price end (mark_terminal_and_update aid none 0 h)
event-IsCached aid price end (malformed type_sealed_bid_received) h a c = c
event-IsCached aid price end (malformed type_auction_revealed) h a c =
    mark-IsCached aid price end none h tt c
event-IsCached aid price end (malformed type_all_pay_forfeit) h a c = c
event-IsCached aid price end (malformed (type_other n)) h a c = c

-- If every observed event carries an amount of at most `price` and an end of at most `end`, and the
-- cache started within these bounds, the cached price and end are within them afterwards.
pub observe-IsCached :
    (aid price end : ℕ) (ws : List Wire) (h : HubState)
    → AllWithin price end ws
    → IsCached price end (room_state_snap h aid)
    → IsCached price end (room_state_snap (observe aid ws h) aid)
unfolding observe
observe-IsCached aid price end [] h a c = c
observe-IsCached aid price end (w ∷ ws) h a c =
    observe-IsCached aid price end ws (update_room_state_from_event aid w h) a.1
      (event-IsCached aid price end w h a.0 c)
