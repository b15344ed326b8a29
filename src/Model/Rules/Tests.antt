-- ===== src/Model/Rules/Tests.antt =====
-- A set of rules that is valid.
use live_auction_system.Prelude.Int.{pos}
use live_auction_system.Model.Mode.{english}
use live_auction_system.Model.Rules.{Rules}

abbrev rules : Rules
rules = record {
  mode = english;
  start_price_cents = pos 100;
  increment_cents = pos 10;
  cap_price_cents = pos 500;
  duration_sec = pos 60;
  extend_window_sec = pos 10;
  extend_sec = pos 15;
  max_extensions = pos 3;
  live_play_url = 0;
  live_stream_key = 0;
}
