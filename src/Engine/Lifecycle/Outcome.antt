-- ===== src/Engine/Lifecycle/Outcome.antt =====
-- What the hammer does to a live auction that is due.
use live_auction_system.Prelude.{ℕ, ◌+◌, ◌≤◌, ◌≡◌, ◌≢◌, ◌&&◌, true, arith}
use live_auction_system.Model.Status.{live, sold, no_bid}
use live_auction_system.Model.Events.{AuctionSoldData, AuctionNoBidData, event_seq}
use live_auction_system.Engine.Room.{Room}
use live_auction_system.Engine.Invariant.{IsWellFormed}
use live_auction_system.Engine.Lifecycle.{closed_sold, closed_no_bid, close_auction}

abbrev pub sold_at : ℕ → Room → AuctionSoldData
sold_at now r = record {
  seq = r.state.seq + 1;
  winner_id = r.state.winner_id;
  amount_cents = r.state.current_price_cents;
  status = sold;
  server_time_ms = now;
}

abbrev pub no_bid_at : ℕ → Room → AuctionNoBidData
no_bid_at now r = record { seq = r.state.seq + 1; status = no_bid; server_time_ms = now }

module _ (now : ℕ) (r : Room) (w : IsWellFormed r) (l : r.state.status ≡ live)
    (due : r.state.end_at_ms ≤ now) (types : (r.types.state_ok && r.types.stream_ok) ≡ true) where
  pub close_auction_sells :
      r.state.winner_id ≢ 0
      → ((close_auction now r).0 ≡ closed_sold (r.state.seq + 1) (sold_at now r))
        × ((close_auction now r).1.state.status ≡ sold)
  unfolding close_auction event_seq
  close_auction_sells someone = ground arith

  pub close_auction_passes :
      r.state.winner_id ≡ 0
      → ((close_auction now r).0 ≡ closed_no_bid (r.state.seq + 1) (no_bid_at now r))
        × ((close_auction now r).1.state.status ≡ no_bid)
  unfolding close_auction event_seq
  close_auction_passes nobody = ground arith
