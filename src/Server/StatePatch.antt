-- ===== src/Server/StatePatch.antt =====
-- The coalescing of room broadcasts: apps/lumen/internal/server/ws_state_patch.go, and the part of
-- `subscribe`'s fan-out in apps/lumen/internal/server/ws.go that feeds it. A payload that json.Unmarshal
-- refuses is `malformed`.
pub mod Conserve
mod Tests
use live_auction_system.Prelude.{
  ℕ, ◌+◌, Bool, true, false, ◌&&◌, not, Option, none, some, if◌then◌else◌, ltb, ◌==◌, List, [], ◌∷◌,
  ◌++◌,
}
use live_auction_system.Prelude.Assoc.{Assoc, lookup, insert, delete}
use live_auction_system.Model.Status.{Status, sold}
use live_auction_system.Model.Events.{
  BidAcceptedData, AuctionExtendedData, EventType, bid_accepted, auction_extended, auction_sold,
  auction_no_bid, auction_cancelled, type_auction_sold, type_auction_no_bid, type_auction_cancelled,
  event_type,
}
use live_auction_system.Server.Hub.{Wire, decoded, malformed, is_sold}

-- `roomStatePatchConfig`
pub record RoomStatePatchConfig : Type 0 where
  pub interval_ms : ℕ
  pub min_viewers : ℕ

-- `RoomStatePatchData`
pub record RoomStatePatchData : Type 0 where
  pub from_seq : ℕ
  pub seq : ℕ
  pub status : Status
  pub current_price_cents : ℕ
  pub winner_id : ℕ
  pub winner_display_name : ℕ
  pub end_at_ms : ℕ
  pub extend_count : ℕ
  pub bid_count_delta : ℕ
  pub bid_count_total : ℕ
  pub server_time_ms : ℕ

pub record PendingRoomStatePatch : Type 0 where
  pub patch_data : RoomStatePatchData
  pub first_server_time_ms : ℕ

pub record RoomStatePatchCoalescer : Type 0 where
  pub cfg : RoomStatePatchConfig
  pub pending : Assoc PendingRoomStatePatch
  pub bid_totals : Assoc ℕ

-- `newRoomStatePatchCoalescer`
abbrev pub new_coalescer : RoomStatePatchConfig → RoomStatePatchCoalescer
new_coalescer cfg = record { cfg = cfg; pending = []; bid_totals = [] }

-- `enabled`
abbrev pub enabled : RoomStatePatchCoalescer → Bool
enabled p = ltb 0 p.cfg.interval_ms && ltb 0 p.cfg.min_viewers

-- One Stream event: its seq, what its payload decodes to, and whether json.Marshal takes the envelope with
-- the raw payload in it.
pub record RoomEvent : Type 0 where
  pub seq : ℕ
  pub wire : Wire
  pub marshals : Bool

is_terminal_type : EventType → Bool
is_terminal_type type_auction_sold = true
is_terminal_type type_auction_no_bid = true
is_terminal_type type_auction_cancelled = true
is_terminal_type _ = false

-- `isTerminalRoomEvent`
unfoldable pub is_terminal_room_event : Wire → Bool
unfolding is_terminal_type event_type
is_terminal_room_event (decoded e) = is_terminal_type (event_type e)
is_terminal_room_event (malformed t) = is_terminal_type t

abbrev total_or_zero : Option ℕ → ℕ
total_or_zero none = 0
total_or_zero (some n) = n

-- The bid total after one bid: the script's own count where it sends one.
unfoldable pub next_total : ℕ → BidAcceptedData → Assoc ℕ → ℕ
next_total aid bid totals =
    if ltb 0 bid.bid_count then bid.bid_count else total_or_zero (lookup aid totals) + 1

unfoldable pub next_patch : ℕ → BidAcceptedData → ℕ → RoomStatePatchData
next_patch seq bid total = record {
  from_seq = seq;
  seq = seq;
  status = bid.status;
  current_price_cents = bid.amount_cents;
  winner_id = bid.user_id;
  winner_display_name = if bid.display_name == 0 then bid.user_id else bid.display_name;
  end_at_ms = bid.end_at_ms;
  extend_count = 0;
  bid_count_delta = 1;
  bid_count_total = total;
  server_time_ms = bid.server_time_ms;
}

-- The patch folded into the one that is pending.
unfoldable pub merge_patch :
    Option PendingRoomStatePatch → RoomStatePatchData → ℕ → PendingRoomStatePatch
merge_patch none next first = record { patch_data = next; first_server_time_ms = first }
merge_patch (some prev) next first = record {
  patch_data = record next {
    from_seq = prev.patch_data.from_seq;
    bid_count_delta = prev.patch_data.bid_count_delta + 1;
  };
  first_server_time_ms = prev.first_server_time_ms;
}

-- `offerBidAccepted`, for a payload that decodes.
unfoldable pub offer_bid_accepted :
    ℕ → ℕ → ℕ → BidAcceptedData → RoomStatePatchCoalescer → Bool × RoomStatePatchCoalescer
unfolding next_total next_patch merge_patch
offer_bid_accepted viewers aid seq bid p =
    if is_sold bid.status
    then (false, record p { bid_totals = delete aid p.bid_totals })
    else let total = next_total aid bid p.bid_totals in
      let q = record p { bid_totals = insert aid total p.bid_totals } in
      if ltb viewers p.cfg.min_viewers then (false, q) else (
        true,
        record q {
          pending =
              insert aid
                (merge_patch (lookup aid p.pending) (next_patch seq bid total) bid.server_time_ms)
                p.pending;
        },
      )

unfoldable pub extend_patch :
    ℕ → AuctionExtendedData → PendingRoomStatePatch → PendingRoomStatePatch
extend_patch seq ext prev = record prev {
  patch_data = record prev.patch_data {
    seq = seq;
    end_at_ms = ext.end_at_ms;
    extend_count = ext.extend_count;
    server_time_ms = ext.server_time_ms;
  };
}

-- `offerAuctionExtended`, for a payload that decodes.
unfoldable pub offer_auction_extended :
    ℕ → ℕ → AuctionExtendedData → RoomStatePatchCoalescer → Bool × RoomStatePatchCoalescer
unfolding extend_patch
offer_auction_extended aid seq ext p = elim (lookup aid p.pending) [
  | none ↦ (false, p)
  | some prev ↦ (true, record p { pending = insert aid (extend_patch seq ext prev) p.pending })
]

offer_wire : ℕ → ℕ → ℕ → Wire → RoomStatePatchCoalescer → Bool × RoomStatePatchCoalescer
unfolding offer_bid_accepted offer_auction_extended
offer_wire viewers aid seq (decoded (bid_accepted bid)) p = offer_bid_accepted viewers aid seq bid p
offer_wire viewers aid seq (decoded (auction_extended ext)) p =
    if ltb viewers p.cfg.min_viewers then (false, p) else offer_auction_extended aid seq ext p
offer_wire viewers aid seq _ p = (false, p)

-- `offer`; `viewers` is the room's viewer count.
unfoldable pub offer : ℕ → ℕ → RoomEvent → RoomStatePatchCoalescer → Bool × RoomStatePatchCoalescer
unfolding offer_wire is_terminal_room_event
offer viewers aid e p =
    if not (enabled p)
    then (false, p)
    else if is_terminal_room_event e.wire
    then (false, record p { bid_totals = delete aid p.bid_totals })
    else offer_wire viewers aid e.seq e.wire p

-- What the room receives.
pub data Frame : Type 0 where
  event_frame : RoomEvent → Frame
  patch_frame : RoomStatePatchData → Frame

-- `flushAid` with its broadcast.
unfoldable pub flush_aid : ℕ → RoomStatePatchCoalescer → List Frame × RoomStatePatchCoalescer
flush_aid aid p = elim (lookup aid p.pending) [
  | none ↦ ([], p)
  | some patch ↦ (patch_frame patch.patch_data ∷ [], record p { pending = delete aid p.pending })
]

abbrev patches_of : Assoc PendingRoomStatePatch → List (ℕ × Frame)
patches_of [] = []
patches_of ((aid, patch) ∷ pending) = (aid, patch_frame patch.patch_data) ∷ patches_of pending

-- `flushAll` with its broadcasts, each to its room. Go visits a map in any order.
unfoldable pub flush_all : RoomStatePatchCoalescer → List (ℕ × Frame) × RoomStatePatchCoalescer
flush_all p = (patches_of p.pending, record p { pending = [] })

-- What the fan-out broadcasts for one event.
unfoldable pub fan_event :
    ℕ → ℕ → RoomEvent → RoomStatePatchCoalescer → List Frame × RoomStatePatchCoalescer
unfolding offer flush_aid
fan_event viewers aid e p =
    let (coalesced, q) = offer viewers aid e p in
    let (out, q') = flush_aid aid q in
    if coalesced then ([], q) else (out ++ (event_frame e ∷ []), q')

-- One pass of the loop: an event that json.Marshal refuses is passed over.
unfoldable pub fan_one :
    ℕ → ℕ → RoomEvent → RoomStatePatchCoalescer → List Frame × RoomStatePatchCoalescer
unfolding fan_event
fan_one viewers aid e p = if e.marshals then fan_event viewers aid e p else ([], p)

-- The fan-out's loop over events, each with the room's viewer count at the time.
unfoldable pub fan_out :
    ℕ → List (ℕ × RoomEvent) → RoomStatePatchCoalescer → List Frame × RoomStatePatchCoalescer
unfolding fan_one
fan_out aid [] p = ([], p)
fan_out aid ((viewers, e) ∷ es) p =
    let (out, q) = fan_one viewers aid e p in
    let (rest, end) = fan_out aid es q in (out ++ rest, end)
