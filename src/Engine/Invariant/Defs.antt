-- ===== src/Engine/Invariant/Defs.antt =====
-- The well-formedness of a room.
use live_auction_system.Prelude.{
  suc, length, ◌≤◌, ◌<◌, ◌≡◌, ◌≢◌, ◌⊎◌, List, [], ◌∷◌, Bool, true, false, ◌||◌,
}
use live_auction_system.Model.Status.{Status, is_terminal, missing, draft, scheduled}
use live_auction_system.Model.Events.{
  Event, event_seq, auction_sold, auction_no_bid, auction_cancelled,
}
use live_auction_system.Model.Rules.{max_money_cents}
use live_auction_system.Engine.Room.{AuctionState, Room, Entry}

-- The Stream holds exactly the entries n, ..., 2, 1, newest first, each with its own `seq`.
abbrev pub Numbered : List Entry → Type 0
Numbered [] = Unit {0}
Numbered (e ∷ es) = (e.id ≡ suc (length es)) × (event_seq e.event ≡ suc (length es)) × Numbered es

abbrev pub is_terminal_event : Event → Bool
is_terminal_event (auction_sold _) = true
is_terminal_event (auction_no_bid _) = true
is_terminal_event (auction_cancelled _) = true
is_terminal_event _ = false

abbrev pub has_terminal : List Entry → Bool
has_terminal [] = false
has_terminal (e ∷ es) = is_terminal_event e.event || has_terminal es

-- Only the newest entry may be terminal.
abbrev pub EndsOnce : List Entry → Type 0
EndsOnce [] = Unit {0}
EndsOnce (e ∷ es) = has_terminal es ≡ false

-- The rules as `validate` admits them, and the price and extension count within them.
pub record IsPriced (s : AuctionState) : Type 0 where
  pub positive_step : 0 < s.increment_cents
  pub above_start : s.start_price_cents ≤ s.current_price_cents
  pub below_cap : (s.cap_price_cents ≡ 0) ⊎ (s.current_price_cents ≤ s.cap_price_cents)
  pub open_below_cap :
      is_terminal s.status ≡ false
      → (s.cap_price_cents ≡ 0) ⊎ (s.current_price_cents < s.cap_price_cents)
  pub within_money : s.current_price_cents ≤ max_money_cents
  pub within_extensions : (s.max_extensions ≡ 0) ⊎ (s.extend_count ≤ s.max_extensions)

-- Before the rules are frozen.
abbrev pub is_unfrozen : Status → Bool
is_unfrozen missing = true
is_unfrozen draft = true
is_unfrozen _ = false

-- Before the auction starts.
abbrev pub is_early : Status → Bool
is_early missing = true
is_early draft = true
is_early scheduled = true
is_early _ = false

pub record IsWellFormed (r : Room) : Type 0 where
  pub numbered : Numbered r.stream
  pub counted : r.state.seq ≡ length r.stream
  pub ends_once : EndsOnce r.stream
  pub settled : is_terminal r.state.status ≡ has_terminal r.stream
  pub early_empty : is_early r.state.status ≡ true → r.state.seq ≡ 0
  -- freeze_rules.lua goes from no state Hash straight to SCHEDULED.
  pub never_draft : r.state.status ≢ draft
  pub priced : is_unfrozen r.state.status ≡ false → IsPriced r.state
