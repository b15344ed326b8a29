-- ===== src/Server/Hub.antt =====
-- The gateway's cache of each room, `Hub.state` of apps/lumen/internal/server/ws.go. The price is the
-- number that the string spells (the scripts write canonical ones), and `none` is the empty string.
pub mod Ratchet
pub mod Rising
mod Tests
use live_auction_system.Prelude.{
  ℕ, Bool, true, false, Option, none, some, if◌then◌else◌, ltb, ◌==◌, List, [], ◌∷◌,
}
use live_auction_system.Prelude.Assoc.{Assoc, lookup, insert, delete}
use live_auction_system.Model.Status.{Status, sold}
use live_auction_system.Model.Mode.{Mode, default_mode, english}
use live_auction_system.Model.Events.{
  Event, EventType, bid_accepted, auction_extended, auction_sold, auction_no_bid, auction_cancelled,
  auction_revealed, type_auction_sold, type_auction_no_bid, type_auction_cancelled,
  type_auction_revealed,
}

pub record RoomState : Type 0 where
  pub price_cents : Option ℕ
  pub end_at_ms : ℕ
  pub terminal : Bool
  pub mode : Mode

-- `Hub.state`
abbrev pub HubState : Type 0
HubState = Assoc RoomState

abbrev pub empty_room_state : RoomState
empty_room_state = record {
  price_cents = none;
  end_at_ms = 0;
  terminal = false;
  mode = default_mode;
}

abbrev or_new : Option RoomState → RoomState
or_new none = empty_room_state
or_new (some rs) = rs

-- `roomStateSnap`
unfoldable pub room_state_snap : HubState → ℕ → RoomState
room_state_snap h aid = or_new (lookup aid h)

-- The ratchet on the price, in `updateRoomState` and in `markTerminalAndUpdate`.
unfoldable pub ratchet_price : Option ℕ → Option ℕ → Option ℕ
ratchet_price none cur = cur
ratchet_price (some new) none = some new
ratchet_price (some new) (some cur) = if ltb cur new then some new else some cur

unfoldable pub ratchet : Option ℕ → ℕ → RoomState → RoomState
unfolding ratchet_price
ratchet price end_at_ms rs = record rs {
  price_cents = ratchet_price price rs.price_cents;
  end_at_ms = if ltb rs.end_at_ms end_at_ms then end_at_ms else rs.end_at_ms;
}

-- `updateRoomState`
unfoldable pub update_room_state : ℕ → Option ℕ → ℕ → HubState → HubState
unfolding ratchet room_state_snap
update_room_state aid price end_at_ms h =
    if aid == 0 then h else insert aid (ratchet price end_at_ms (room_state_snap h aid)) h

unfoldable pub is_english : Mode → Bool
is_english default_mode = true
is_english english = true
is_english _ = false

-- `setMode`
unfoldable pub set_mode : ℕ → Mode → HubState → HubState
unfolding is_english room_state_snap
set_mode aid mode h =
    if is_english mode then h else insert aid (record (room_state_snap h aid) { mode = mode }) h

-- `dropRoomState`
unfoldable pub drop_room_state : ℕ → HubState → HubState
drop_room_state aid h = delete aid h

-- `markTerminalAndUpdate`
unfoldable pub mark_terminal_and_update : ℕ → Option ℕ → ℕ → HubState → HubState
unfolding ratchet room_state_snap
mark_terminal_and_update aid price end_at_ms h =
    if aid == 0
    then h
    else insert aid (record (ratchet price end_at_ms (room_state_snap h aid)) { terminal = true }) h

-- A Stream event as the gateway reads it: its payload, or its type where the payload is malformed.
pub data Wire : Type 0 where
  decoded : Event → Wire
  malformed : EventType → Wire

abbrev pub is_sold : Status → Bool
is_sold sold = true
is_sold _ = false

-- `updateRoomStateFromEvent`
unfoldable pub update_room_state_from_event : ℕ → Wire → HubState → HubState
unfolding mark_terminal_and_update drop_room_state update_room_state
update_room_state_from_event aid (decoded (auction_sold p)) h =
    drop_room_state aid (mark_terminal_and_update aid (some p.amount_cents) 0 h)
update_room_state_from_event aid (malformed type_auction_sold) h =
    drop_room_state aid (mark_terminal_and_update aid none 0 h)
update_room_state_from_event aid (decoded (auction_no_bid p)) h =
    drop_room_state aid (mark_terminal_and_update aid none 0 h)
update_room_state_from_event aid (malformed type_auction_no_bid) h =
    drop_room_state aid (mark_terminal_and_update aid none 0 h)
update_room_state_from_event aid (decoded (auction_cancelled p)) h =
    drop_room_state aid (mark_terminal_and_update aid none 0 h)
update_room_state_from_event aid (malformed type_auction_cancelled) h =
    drop_room_state aid (mark_terminal_and_update aid none 0 h)
update_room_state_from_event aid (decoded (bid_accepted p)) h =
    if is_sold p.status
    then drop_room_state aid (mark_terminal_and_update aid (some p.amount_cents) p.end_at_ms h)
    else update_room_state aid (some p.amount_cents) p.end_at_ms h
update_room_state_from_event aid (decoded (auction_extended p)) h =
    update_room_state aid none p.end_at_ms h
update_room_state_from_event aid (decoded (auction_revealed p)) h =
    mark_terminal_and_update aid (some p.amount_cents) 0 h
update_room_state_from_event aid (malformed type_auction_revealed) h =
    mark_terminal_and_update aid none 0 h
update_room_state_from_event aid _ h = h

-- The gateway's fan-out, which feeds each event to the cache.
unfoldable pub observe : ℕ → List Wire → HubState → HubState
unfolding update_room_state_from_event
observe aid [] h = h
observe aid (w ∷ ws) h = observe aid ws (update_room_state_from_event aid w h)
