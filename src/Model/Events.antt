-- ===== src/Model/Events.antt =====
-- The event payloads of apps/lumen/internal/model/model.go. Identifiers and display names are only
-- compared and copied, so they are numbers, and 0 is the empty string. A money string is the
-- number that it spells.
use live_auction_system.Prelude.{ℕ, List}
use native.Mathlib.Decide.{ℕ_discrete}
use live_auction_system.Model.Status.{Status}

pub record BidAcceptedData : Type 0 where
  pub seq : ℕ
  pub user_id : ℕ
  pub display_name : ℕ
  pub amount_cents : ℕ
  pub end_at_ms : ℕ
  pub status : Status
  pub bid_count : ℕ
  pub server_time_ms : ℕ

pub record AuctionExtendedData : Type 0 where
  pub seq : ℕ
  pub end_at_ms : ℕ
  pub extend_count : ℕ
  pub server_time_ms : ℕ

pub record AuctionSoldData : Type 0 where
  pub seq : ℕ
  pub winner_id : ℕ
  pub amount_cents : ℕ
  pub status : Status
  pub server_time_ms : ℕ

-- AuctionNoBidData and AuctionCancelledData have the same fields.
pub record AuctionNoBidData : Type 0 where
  pub seq : ℕ
  pub status : Status
  pub server_time_ms : ℕ

pub record AuctionCancelledData : Type 0 where
  pub seq : ℕ
  pub status : Status
  pub server_time_ms : ℕ

pub record SealedBidReceivedData : Type 0 where
  pub seq : ℕ
  pub display_name : ℕ
  pub count : ℕ
  pub server_time_ms : ℕ

pub record RevealedBid : Type 0 where
  pub user_id : ℕ
  pub display_name : ℕ
  pub amount_cents : ℕ

pub record AuctionRevealedData : Type 0 where
  pub seq : ℕ
  pub bids : List RevealedBid
  pub winner_id : ℕ
  pub amount_cents : ℕ
  pub server_time_ms : ℕ

pub record AllPayForfeitData : Type 0 where
  pub seq : ℕ
  pub user_id : ℕ
  pub coins_forfeit : ℕ
  pub server_time_ms : ℕ

-- A Stream entry's `type` field, as the constants Type* of model.go.
pub data EventType : Type 0 where
  type_bid_accepted type_auction_extended type_auction_sold type_auction_no_bid : EventType
  type_auction_cancelled type_sealed_bid_received type_auction_revealed : EventType
  type_all_pay_forfeit : EventType
  -- any other string, by a number
  type_other : ℕ → EventType

unfoldable pub EventType-discrete : Discrete EventType
EventType-discrete = hlevel (ℕ_discrete)

-- The payload of a Stream entry, by its `type` field.
pub data Event : Type 0 where
  bid_accepted : BidAcceptedData → Event
  auction_extended : AuctionExtendedData → Event
  auction_sold : AuctionSoldData → Event
  auction_no_bid : AuctionNoBidData → Event
  auction_cancelled : AuctionCancelledData → Event
  sealed_bid_received : SealedBidReceivedData → Event
  auction_revealed : AuctionRevealedData → Event
  all_pay_forfeit : AllPayForfeitData → Event

unfoldable pub event_seq : Event → ℕ
event_seq (bid_accepted e) = e.seq
event_seq (auction_extended e) = e.seq
event_seq (auction_sold e) = e.seq
event_seq (auction_no_bid e) = e.seq
event_seq (auction_cancelled e) = e.seq
event_seq (sealed_bid_received e) = e.seq
event_seq (auction_revealed e) = e.seq
event_seq (all_pay_forfeit e) = e.seq

unfoldable pub event_type : Event → EventType
event_type (bid_accepted _) = type_bid_accepted
event_type (auction_extended _) = type_auction_extended
event_type (auction_sold _) = type_auction_sold
event_type (auction_no_bid _) = type_auction_no_bid
event_type (auction_cancelled _) = type_auction_cancelled
event_type (sealed_bid_received _) = type_sealed_bid_received
event_type (auction_revealed _) = type_auction_revealed
event_type (all_pay_forfeit _) = type_all_pay_forfeit
