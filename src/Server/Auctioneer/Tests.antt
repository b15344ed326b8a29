-- ===== src/Server/Auctioneer/Tests.antt =====
-- Rapid bids, silence and the hammer.
use live_auction_system.Prelude.{ℕ, ◌≡◌, refl, false, none, List, [], ◌∷◌}
use live_auction_system.Server.Auctioneer.{
  AuctioneerHooks, surge, cold, open_trigger, hammer, HookCall, auction_start, bid_accepted,
  tick_stall, auction_sold, hooks, is_surge, on_auction_start, on_bid_accepted, on_tick_stall,
  on_auction_sold, delta_at_least_three_steps,
}

abbrev fresh : AuctioneerHooks
fresh = record {
  open_fired = false;
  last_bid_at_ms = 0;
  last_bid_amount = none;
  last_surge_at_ms = 0;
  last_cold_at_ms = 0;
  terminal_at_ms = 0;
}

abbrev calls : List (HookCall × ℕ)
calls =
    (auction_start, 100000)
    ∷ (auction_start, 100500)
    ∷ (bid_accepted 100 10, 101000)
    ∷ (bid_accepted 130 10, 102000)
    ∷ (bid_accepted 160 10, 103000)
    ∷ (tick_stall, 140000)
    ∷ (tick_stall, 145000)
    ∷ (auction_sold, 150000)
    ∷ []

fired :
    hooks calls fresh
    ≡ (open_trigger, 100000) ∷ (surge, 102000) ∷ (cold, 140000) ∷ (hammer, 150000) ∷ []
unfolding hooks is_surge on_auction_start on_bid_accepted on_tick_stall on_auction_sold
    delta_at_least_three_steps
fired = refl
