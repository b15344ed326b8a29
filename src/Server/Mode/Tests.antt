-- ===== src/Server/Mode/Tests.antt =====
-- Witnesses for the theorems on the modes.
use live_auction_system.Prelude.{◌≡◌, refl}
use live_auction_system.Prelude.Int.{pos}
use live_auction_system.Model.Mode.{english}
use live_auction_system.Model.Rules.{Rules}
use live_auction_system.Server.Mode.{base_mode, normalize_rules}

-- Anti-snipe without a limit on its extensions.
abbrev unlimited : Rules
unlimited = record {
  mode = english;
  start_price_cents = pos 100;
  increment_cents = pos 10;
  cap_price_cents = pos 0;
  duration_sec = pos 60;
  extend_window_sec = pos 10;
  extend_sec = pos 15;
  max_extensions = pos 0;
  live_play_url = 0;
  live_stream_key = 0;
}

capped : (normalize_rules base_mode unlimited).max_extensions ≡ pos 10
unfolding normalize_rules
capped = refl
