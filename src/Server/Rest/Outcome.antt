-- ===== src/Server/Rest/Outcome.antt =====
-- What the answers of apps/lumen/internal/server/api.go mean.
use live_auction_system.Prelude.{ℕ, suc, ◌-◌, false, some, ◌≡◌, ◌+◌}
use live_auction_system.Prelude.Int.{ℤ, pos, negsuc}
use live_auction_system.Model.Status.{scheduled}
use live_auction_system.Model.Rules.{Rules}
use live_auction_system.Engine.Room.{AuctionState, Room}
use live_auction_system.Engine.Lifecycle.{frozen_state}
use live_auction_system.Store.Orders.{write_ok}
use live_auction_system.Server.Rest.{Auction, Lot}
use live_auction_system.Server.Rest.Freeze.{FreezeFaults, StartFaults}

-- No call fails.
abbrev pub no_freeze_faults : FreezeFaults
no_freeze_faults = record {
  owner_fails = false;
  rules_fail = false;
  lock_fails = false;
  row_fails = false;
  facts = write_ok;
  script = write_ok;
  status = write_ok;
}

abbrev pub no_start_faults : StartFaults
no_start_faults = record {
  owner_fails = false;
  rules_fail = false;
  script = write_ok;
  track_fails = false;
  status = write_ok;
}

-- The room and the row after the freeze.
abbrev frozen_lot : Auction → Rules → Lot → Lot
frozen_lot a rules lot = record lot {
  auction = some (record a { status = scheduled });
  room = record lot.room { state = frozen_state rules a.seller_id lot.room.state };
}

-- The end of an auction that starts now.
unfoldable pub end_after : ℤ → ℕ → ℕ
end_after (pos ms) now = now + ms
end_after (negsuc k) now = now - suc k

-- The room has the numbers of the rules.
pub record IsUnderRules (rules : Rules) (s : AuctionState) : Type 0 where
  pub start_price : pos s.start_price_cents ≡ rules.start_price_cents
  pub price : pos s.current_price_cents ≡ rules.start_price_cents
  pub increment : pos s.increment_cents ≡ rules.increment_cents
  pub cap_price : pos s.cap_price_cents ≡ rules.cap_price_cents
  pub extend_window : pos s.extend_window_sec ≡ rules.extend_window_sec
  pub extension : pos s.extend_sec ≡ rules.extend_sec
  pub extensions : pos s.max_extensions ≡ rules.max_extensions
