-- ===== src/Engine/PlaceBid/Samples.antt =====
-- A live room before its first bid, for the tests.
use live_auction_system.Prelude.{ℕ, true, false, some, [], arith}
use live_auction_system.Model.Status.{live, is_terminal}
use live_auction_system.Model.Mode.{english}
use live_auction_system.Engine.Room.{AuctionState, KeyTypes, Room}
use live_auction_system.Engine.Invariant.{IsWellFormed}
use live_auction_system.Engine.PlaceBid.{BidArgs}

abbrev pub fresh_state : AuctionState
fresh_state = record {
  status = live;
  mode = english;
  paused = false;
  seller_id = 9;
  winner_id = 0;
  winner_display_name = 0;
  seq = 0;
  bid_count = 0;
  start_price_cents = 100;
  current_price_cents = 100;
  increment_cents = 10;
  cap_price_cents = 500;
  extend_window_sec = 10;
  extend_sec = 15;
  extend_count = 0;
  max_extensions = 3;
  end_at_ms = 60000;
}

abbrev pub good_types : KeyTypes
good_types = record {
  state_ok = true;
  leaderboard_ok = true;
  stream_ok = true;
  dedupe_ok = true;
  sealed_ok = true;
  sealed_names_ok = true;
}

abbrev pub fresh_room : Room
fresh_room = record {
  state = fresh_state;
  leaderboard = [];
  sealed_bids = [];
  sealed_names = [];
  stream = [];
  dedupe = [];
  published = [];
  types = good_types;
}

abbrev pub bid_of : ℕ → ℕ → ℕ → BidArgs
bid_of user token amount = record {
  user_id = user;
  client_bid_id = token;
  amount = some amount;
  display_name = user;
}

pub fresh_room-IsWellFormed : IsWellFormed fresh_room
unfolding is_terminal
fresh_room-IsWellFormed = ground arith
