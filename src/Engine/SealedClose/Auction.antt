-- ===== src/Engine/SealedClose/Auction.antt =====
-- A sealed auction from its bids to the hammer.
use live_auction_system.Prelude.{ℕ, ◌+◌, ◌≤◌, ◌≡◌, inl, inr, true, List, some, arith}
use live_auction_system.Prelude.Assoc.{Assoc, lookup}
use live_auction_system.Engine.Room.{Room}
use live_auction_system.Engine.PlaceBid.{BidArgs}
use live_auction_system.Engine.SealedClose.{
  PriceMode, first_price, second_price, close_auction_sealed, sealed_keys_ok,
}
use live_auction_system.Engine.SealedClose.Ranking.{IsRanking}
use live_auction_system.Engine.SealedClose.Bids.{sealed_run, IsSealedRoom, sealed_run-IsSealedRoom}
use live_auction_system.Engine.SealedClose.Hammer.{IsDue, IsSold}
use live_auction_system.Engine.SealedClose.Sale.{IsHighest, IsPriced, close_auction_sealed_sells}

IsPriced-bounded :
    (mode : PriceMode) (start : ℕ) (bids : Assoc ℕ) (winner top price : ℕ)
    → ((u v : ℕ) → lookup u bids ≡ some v → start ≤ v)
    → IsHighest bids winner top
    → IsPriced mode start bids winner top price
    → (start ≤ price) × (price ≤ top)
IsPriced-bounded first_price start bids winner top price reserved high priced =
    (ground (arith, priced, reserved winner top high.0), ground (arith, priced))
IsPriced-bounded second_price start bids winner top price reserved high (inl (second, s)) =
    (reserved second price s.0, s.2)
IsPriced-bounded second_price start bids winner top price reserved high (inr (_, p)) =
    (ground (arith, p), ground (arith, p, reserved winner top high.0))

sealed_run-IsDue :
    (bids : List (BidArgs × ℕ)) (start end now : ℕ) (r : Room)
    → sealed_keys_ok r ≡ true
    → IsSealedRoom start end r
    → end ≤ now
    → IsDue now (sealed_run bids r)
sealed_run-IsDue bids start end now r types s ended =
    let (q, same) = sealed_run-IsSealedRoom start end bids r s in
    record {
      types = ground (arith, types, same);
      running = q.running;
      ended = ground (arith, q.ends, ended);
      in_step = q.in_step;
    }

-- Let a sealed room be live, in step, with right key types, and with no bid below its start price.
-- Whatever bids place_bid_sealed.lua then answers, if anybody has a bid in the end and ZREVRANGE ranks
-- the bids, a close at or after the end of the room sells to a bidder whom nobody has outbid, at a price
-- that is at least the start price and at most this bid.
pub sealed_auction_bounded :
    (zrevrange : Assoc ℕ → Assoc ℕ) (mode : PriceMode) (bids : List (BidArgs × ℕ))
    (start end now : ℕ) (r : Room)
    → sealed_keys_ok r ≡ true
    → IsSealedRoom start end r
    → end ≤ now
    → IsRanking (zrevrange (sealed_run bids r).sealed_bids) (sealed_run bids r).sealed_bids
    → (u v : ℕ) → lookup u (sealed_run bids r).sealed_bids ≡ some v
    → (winner : ℕ) × (top : ℕ) × (price : ℕ) × IsHighest (sealed_run bids r).sealed_bids winner top
      × (start ≤ price)
      × (price ≤ top)
      × IsSold winner price now
          ((sealed_run bids r).state.seq + 1 + 1)
          (close_auction_sealed zrevrange mode now (sealed_run bids r))
sealed_auction_bounded zrevrange mode bids start end now r types s ended ranking u v bid =
    let q = sealed_run bids r in
    let kept = (sealed_run-IsSealedRoom start end bids r s).0 in
    let due = sealed_run-IsDue bids start end now r types s ended in
    let (winner, top, price, high, priced, is_sold) =
      close_auction_sealed_sells zrevrange now q due ranking u v bid mode in
    let (above, below) =
      IsPriced-bounded mode q.state.start_price_cents q.sealed_bids winner top price
        (λ w x e. ground (arith, kept.starts, kept.reserved w x e)) high priced in
    (winner, top, price, high, ground (arith, above, kept.starts), below, is_sold)
