-- ===== src/Engine/Trace.antt =====
-- The keys of one ascending auction under any sequence of scripts. Redis runs each script whole, so
-- an interleaving of gateways, the timer and the sellers is a sequence of such steps. An operator
-- may set `paused`, and a dedupe Hash expires after 24 hours.
pub mod WellFormed
pub mod Concluded
pub mod Retry
pub mod Leader
pub mod Terminal
pub mod Hammer
mod Tests
use live_auction_system.Prelude.{ℕ, ◌≡◌, ◌≢◌, Bool, false, none, []}
use live_auction_system.Prelude.Assoc.{delete}
use live_auction_system.Model.Status.{missing}
use live_auction_system.Model.Mode.{default_mode}
use live_auction_system.Model.Rules.{Rules, validate}
use live_auction_system.Engine.Room.{AuctionState, KeyTypes, Room}
use live_auction_system.Engine.PlaceBid.{BidArgs, adjudicate}
use live_auction_system.Engine.Lifecycle.{
  freeze_rules, start_auction, close_auction, cancel_auction,
}

-- No key of the auction exists yet.
abbrev pub empty_state : AuctionState
empty_state = record {
  status = missing;
  mode = default_mode;
  paused = false;
  seller_id = 0;
  winner_id = 0;
  winner_display_name = 0;
  seq = 0;
  bid_count = 0;
  start_price_cents = 0;
  current_price_cents = 0;
  increment_cents = 0;
  cap_price_cents = 0;
  extend_window_sec = 0;
  extend_sec = 0;
  extend_count = 0;
  max_extensions = 0;
  end_at_ms = 0;
}

abbrev pub empty_room : KeyTypes → Room
empty_room types = record {
  state = empty_state;
  leaderboard = [];
  sealed_bids = [];
  sealed_names = [];
  stream = [];
  dedupe = [];
  published = [];
  types = types;
}

-- A bidder has a user id: the gateway takes bids from authenticated sockets only. The rules have
-- passed `validate` when an auction is created or its rules are changed.
pub data Step : Room → Room → Type 0 where
  bid :
      (hybrid : Bool) (a : BidArgs) (now : ℕ) (r : Room)
      → a.user_id ≢ 0
      → Step r (adjudicate hybrid a now r).1
  freeze :
      (rules : Rules) (seller : ℕ) (r : Room)
      → validate rules ≡ none
      → Step r (freeze_rules rules seller r).1
  start : (duration_ms now : ℕ) (r : Room) → Step r (start_auction duration_ms now r).1
  close : (now : ℕ) (r : Room) → Step r (close_auction now r).1
  cancel : (caller now : ℕ) (r : Room) → Step r (cancel_auction caller now r).1
  pause :
      (paused : Bool) (r : Room) → Step r (record r { state = record r.state { paused = paused } })
  expire : (user : ℕ) (r : Room) → Step r (record r { dedupe = delete user r.dedupe })

pub data Reach (r : Room) : Room → Type 0 where
  here : Reach r r
  next : {s t : Room} → Reach r s → Step s t → Reach r t

-- What every step keeps holds of whatever is reached.
pub Reach-keeps {ℓ} :
    {r t : Room} (P : Room → Type ℓ) (keeps : (s t : Room) → Step s t → P s → P t)
    → P r
    → Reach r t
    → P t
Reach-keeps P keeps h here = h
Reach-keeps P keeps h (next {s = s} {t = t} reached step) =
    keeps s t step (Reach-keeps P keeps h reached)
