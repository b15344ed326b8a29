-- ===== src/Engine/PlaceBid/Keeps.antt =====
-- An adjudicated bid keeps the room well formed.
use live_auction_system.Prelude.{ℕ, ◌≡◌, inl, inr, Bool, arith, Option-cases}
use live_auction_system.Model.Status.{live, is_terminal}
use live_auction_system.Model.Events.{event_seq}
use live_auction_system.Engine.Room.{AuctionState, Room}
use live_auction_system.Engine.Invariant.{IsPriced, IsWellFormed}
use live_auction_system.Engine.PlaceBid.{
  required_price, BidArgs, bid_refusal, accept_bid, adjudicate, accepted_state,
}
use live_auction_system.Engine.PlaceBid.Admission.{
  IsOffer, IsAdmissible, bid_refusal-none, adjudicate_accepts,
}

module _ (hybrid : Bool) (a : BidArgs) (n now : ℕ) where
  accepted_state-IsPriced :
      (s : AuctionState)
      → s.status ≡ live
      → IsOffer s n
      → IsPriced s
      → IsPriced (accepted_state hybrid s a n now)
  unfolding accepted_state required_price is_terminal
  accepted_state-IsPriced s l o p = ground arith

  accept_bid-IsWellFormed :
      (r : Room)
      → IsAdmissible r a n now
      → IsWellFormed r
      → IsWellFormed (accept_bid hybrid a n now r).1
  unfolding accept_bid is_terminal event_seq
  accept_bid-IsWellFormed r h w = ground (arith, accepted_state-IsPriced r.state)

pub adjudicate-IsWellFormed :
    (hybrid : Bool) (a : BidArgs) (now : ℕ) (r : Room)
    → IsWellFormed r
    → IsWellFormed (adjudicate hybrid a now r).1
unfolding adjudicate
adjudicate-IsWellFormed hybrid a now r w = elim (Option-cases (bid_refusal r a now)) [
  | inl admitted ↦
      let (n, h) = bid_refusal-none r a now admitted in
      rw (adjudicate_accepts hybrid a n now r h) (accept_bid-IsWellFormed hybrid a n now r h w)
  | inr (reply, refused) ↦ rw (refused, adjudicate) w
]
