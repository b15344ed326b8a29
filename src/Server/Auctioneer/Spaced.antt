-- ===== src/Server/Auctioneer/Spaced.antt =====
-- How often the triggers fire.
use live_auction_system.Prelude.{
  ℕ, ◌+◌, ◌≤◌, ◌≡◌, Bool, true, false, List, [], ◌∷◌, arith, Bool-cases, inl, inr,
}
use live_auction_system.Server.Auctioneer.{
  AuctioneerHooks, Trigger, open_trigger, surge, cold, HookCall, auction_start, bid_accepted,
  tick_stall, auction_sold, auction_terminal_non_sold, hook, hooks, on_auction_start,
  on_bid_accepted, on_tick_stall, on_auction_sold, on_auction_terminal_non_sold, is_surge,
}

-- The surges of a log come at least five seconds apart, the first one after `last`.
abbrev pub SurgesSpaced : ℕ → List (Trigger × ℕ) → Type 0
SurgesSpaced last [] = Unit {0}
SurgesSpaced last ((surge, now) ∷ log) = (last + 5000 ≤ now) × SurgesSpaced now log
SurgesSpaced last (_ ∷ log) = SurgesSpaced last log

-- The cold triggers of a log come at least thirty seconds apart, the first one after `last`.
abbrev pub ColdsSpaced : ℕ → List (Trigger × ℕ) → Type 0
ColdsSpaced last [] = Unit {0}
ColdsSpaced last ((cold, now) ∷ log) = (last + 30000 ≤ now) × ColdsSpaced now log
ColdsSpaced last (_ ∷ log) = ColdsSpaced last log

-- A log opens at most once, and not at all if it has been opened.
abbrev pub OpensOnce : Bool → List (Trigger × ℕ) → Type 0
OpensOnce opened [] = Unit {0}
OpensOnce opened ((open_trigger, _) ∷ log) = (opened ≡ false) × OpensOnce true log
OpensOnce opened (_ ∷ log) = OpensOnce opened log

surge_late :
    (now amount step : ℕ) (a : AuctioneerHooks)
    → is_surge now amount step a ≡ true
    → a.last_surge_at_ms + 5000 ≤ now
unfolding is_surge
surge_late now amount step a h = ground (arith, h)

-- Whatever the calls and their times, the surges fired come at least five seconds after one another and
-- the last one before, the cold triggers thirty, and the auction is opened at most once.
pub hooks-Spaced :
    (calls : List (HookCall × ℕ)) (a : AuctioneerHooks)
    → SurgesSpaced a.last_surge_at_ms (hooks calls a)
      × ColdsSpaced a.last_cold_at_ms (hooks calls a)
      × OpensOnce a.open_fired (hooks calls a)
unfolding hooks on_auction_start on_bid_accepted on_tick_stall on_auction_sold
    on_auction_terminal_non_sold
hooks-Spaced [] a = (tt, tt, tt)
hooks-Spaced ((auction_start, now) ∷ calls) a =
    ground (arith, hooks-Spaced calls (hook auction_start now a).1)
hooks-Spaced ((bid_accepted amount step, now) ∷ calls) a =
    elim (Bool-cases (is_surge now amount step a)) [
      | inl fires ↦ ground (
        arith,
        fires,
        surge_late now amount step a fires,
        hooks-Spaced calls (on_bid_accepted now amount step a).1,
      )
      | inr quiet ↦ ground (arith, quiet, hooks-Spaced calls (on_bid_accepted now amount step a).1)
    ]
hooks-Spaced ((tick_stall, now) ∷ calls) a =
    ground (arith, hooks-Spaced calls (hook tick_stall now a).1)
hooks-Spaced ((auction_sold, now) ∷ calls) a =
    ground (arith, hooks-Spaced calls (hook auction_sold now a).1)
hooks-Spaced ((auction_terminal_non_sold, now) ∷ calls) a =
    ground (arith, hooks-Spaced calls (hook auction_terminal_non_sold now a).1)
