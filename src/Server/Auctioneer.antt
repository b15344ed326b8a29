-- ===== src/Server/Auctioneer.antt =====
-- The triggers of the commentary in apps/lumen/internal/server/auctioneer.go: `AuctioneerHooks` of one
-- auction, where a missing entry of a map is 0, `none` or false. `now` is the clock in milliseconds. A
-- difference of times is compared with a bound by a sum, since the numbers have no sign.
pub mod Spaced
mod Tests
use live_auction_system.Prelude.{
  ℕ, ◌+◌, ◌*◌, Bool, true, false, ◌&&◌, ◌||◌, not, if◌then◌else◌, ltb, leb, ◌==◌, List, [], ◌∷◌,
  ◌++◌, Option, none, some,
}

pub record AuctioneerHooks : Type 0 where
  pub open_fired : Bool
  pub last_bid_at_ms : ℕ
  pub last_bid_amount : Option ℕ
  pub last_surge_at_ms : ℕ
  pub last_cold_at_ms : ℕ
  pub terminal_at_ms : ℕ

pub data Trigger : Type 0 where
  open_trigger surge cold hammer : Trigger

-- What a call fires, with its time.
abbrev pub Fires : Type 0
Fires = List (Trigger × ℕ) × AuctioneerHooks

-- `deltaAtLeastThreeSteps`, of amounts that are numbers.
unfoldable pub delta_at_least_three_steps : ℕ → ℕ → ℕ → Bool
delta_at_least_three_steps cur prev step = not (step == 0) && leb (prev + 3 * step) cur

-- `OnAuctionStart`
unfoldable pub on_auction_start : ℕ → AuctioneerHooks → Fires
on_auction_start now a =
    if a.open_fired then ([], a) else ((open_trigger, now) ∷ [], record a { open_fired = true })

-- The tests of `OnBidAccepted`, after the two updates.
unfoldable pub is_surge : ℕ → ℕ → ℕ → AuctioneerHooks → Bool
unfolding delta_at_least_three_steps
is_surge now amount step a = elim a.last_bid_amount [
  | none ↦ false
  | some prev ↦
      not (a.last_bid_at_ms == 0)
      && ltb now (a.last_bid_at_ms + 2000)
      && delta_at_least_three_steps amount prev step
      && leb (a.last_surge_at_ms + 5000) now
]

-- `OnBidAccepted`
unfoldable pub on_bid_accepted : ℕ → ℕ → ℕ → AuctioneerHooks → Fires
unfolding is_surge
on_bid_accepted now amount step a =
    let seen = record a { last_bid_at_ms = now; last_bid_amount = some amount } in
    if is_surge now amount step a
    then ((surge, now) ∷ [], record seen { last_surge_at_ms = now })
    else ([], seen)

-- `OnTickStall`
unfoldable pub on_tick_stall : ℕ → AuctioneerHooks → Fires
on_tick_stall now a =
    if ltb 0 a.terminal_at_ms && ltb now (a.terminal_at_ms + 5000)
    then ([], a)
    else if a.last_bid_at_ms == 0
    then ([], a)
    else if ltb now (a.last_bid_at_ms + 30000)
    then ([], a)
    else if ltb now (a.last_cold_at_ms + 30000)
    then ([], a)
    else ((cold, now) ∷ [], record a { last_cold_at_ms = now })

-- `OnAuctionSold`
unfoldable pub on_auction_sold : ℕ → AuctioneerHooks → Fires
on_auction_sold now a = ((hammer, now) ∷ [], record a { terminal_at_ms = now })

-- `OnAuctionTerminalNonSold`
unfoldable pub on_auction_terminal_non_sold : ℕ → AuctioneerHooks → Fires
on_auction_terminal_non_sold now a = ([], record a { terminal_at_ms = now })

-- The calls, each with its time. A bid has its amount and the step.
pub data HookCall : Type 0 where
  auction_start : HookCall
  bid_accepted : ℕ → ℕ → HookCall
  tick_stall auction_sold auction_terminal_non_sold : HookCall

unfoldable pub hook : HookCall → ℕ → AuctioneerHooks → Fires
unfolding on_auction_start on_bid_accepted on_tick_stall on_auction_sold
    on_auction_terminal_non_sold
hook auction_start now a = on_auction_start now a
hook (bid_accepted amount step) now a = on_bid_accepted now amount step a
hook tick_stall now a = on_tick_stall now a
hook auction_sold now a = on_auction_sold now a
hook auction_terminal_non_sold now a = on_auction_terminal_non_sold now a

-- All that a sequence of calls fires.
unfoldable pub hooks : List (HookCall × ℕ) → AuctioneerHooks → List (Trigger × ℕ)
unfolding hook
hooks [] a = []
hooks ((c, now) ∷ calls) a = (hook c now a).0 ++ hooks calls (hook c now a).1
