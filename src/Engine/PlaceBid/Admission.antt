-- ===== src/Engine/PlaceBid/Admission.antt =====
-- When a bid is admitted, stated without the order of the checks.
use live_auction_system.Prelude.{
  ℕ, Bool, ◌≤◌, ◌<◌, ◌≡◌, ◌≢◌, ◌⊎◌, true, false, none, some, Option, arith,
}
use live_auction_system.Model.Status.{live}
use live_auction_system.Model.Rules.{max_money_cents}
use live_auction_system.Engine.Room.{AuctionState, Room, dedupe_get, last_stream_seq}
use live_auction_system.Engine.PlaceBid.{
  BidArgs, bid_refusal, accept_bid, adjudicate, required_price, amount_refusal, state_refusal,
  types_ok,
}

-- The price that the auction rules ask for, as two orders.
pub record IsOffer (s : AuctionState) (n : ℕ) : Type 0 where
  pub positive : 0 < n
  pub within_money : n ≤ max_money_cents
  pub reaches : required_price s ≤ n
  pub within_cap : (s.cap_price_cents ≡ 0) ⊎ (n ≤ s.cap_price_cents)

pub record IsOpen (s : AuctionState) (a : BidArgs) (now : ℕ) : Type 0 where
  pub not_paused : s.paused ≡ false
  pub is_live_now : s.status ≡ live
  pub not_seller : (s.seller_id ≡ 0) ⊎ (a.user_id ≢ s.seller_id)
  pub before_end : now < s.end_at_ms

pub record IsAdmissible (r : Room) (a : BidArgs) (n now : ℕ) : Type 0 where
  pub right_types : types_ok r ≡ true
  pub first_time : dedupe_get a.user_id a.client_bid_id r ≡ none
  pub open_now : IsOpen r.state a now
  pub spelled : a.amount ≡ some n
  pub offer : IsOffer r.state n
  pub lockstep : last_stream_seq r.stream ≡ r.state.seq

state_refusal-none :
    (s : AuctionState) (a : BidArgs) (now : ℕ) → state_refusal s a now ≡ none → IsOpen s a now
unfolding state_refusal
state_refusal-none s a now h = ground arith

state_refusal_of_IsOpen :
    (s : AuctionState) (a : BidArgs) (now : ℕ) → IsOpen s a now → state_refusal s a now ≡ none
unfolding state_refusal
state_refusal_of_IsOpen s a now h = ground arith

amount_refusal-none :
    (s : AuctionState) (o : Option ℕ)
    → amount_refusal s o ≡ none
    → (n : ℕ) × (o ≡ some n) × IsOffer s n
unfolding amount_refusal
amount_refusal-none s none h = ground arith
amount_refusal-none s (some n) h = (n, ground arith, ground arith)

amount_refusal_of_IsOffer :
    (s : AuctionState) (n : ℕ) → IsOffer s n → amount_refusal s (some n) ≡ none
unfolding amount_refusal
amount_refusal_of_IsOffer s n h = ground arith

pub bid_refusal-none :
    (r : Room) (a : BidArgs) (now : ℕ)
    → bid_refusal r a now ≡ none
    → (n : ℕ) × IsAdmissible r a n now
unfolding bid_refusal
bid_refusal-none r a now h =
    let (n, spelled, offer) = amount_refusal-none r.state a.amount (ground arith) in
    (
      n,
      record {
        right_types = ground arith;
        first_time = ground arith;
        open_now = state_refusal-none r.state a now (ground arith);
        spelled = spelled;
        offer = offer;
        lockstep = ground arith;
      },
    )

pub bid_refusal_of_IsAdmissible :
    (r : Room) (a : BidArgs) (n now : ℕ) → IsAdmissible r a n now → bid_refusal r a now ≡ none
unfolding bid_refusal
bid_refusal_of_IsAdmissible r a n now h = ground (
  arith,
  state_refusal_of_IsOpen r.state a now h.open_now,
  amount_refusal_of_IsOffer r.state n h.offer,
)

pub adjudicate_accepts :
    (hybrid : Bool) (a : BidArgs) (n now : ℕ) (r : Room)
    → IsAdmissible r a n now
    → adjudicate hybrid a now r ≡ accept_bid hybrid a n now r
unfolding adjudicate
adjudicate_accepts hybrid a n now r h =
    rw (bid_refusal_of_IsAdmissible r a n now h, h.spelled, adjudicate)
