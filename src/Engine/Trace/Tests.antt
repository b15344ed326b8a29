-- ===== src/Engine/Trace/Tests.antt =====
-- One auction from its rules to the hammer.
use live_auction_system.Prelude.{
  ℕ, ◌+◌, ◌*◌, ◌≤◌, ◌≡◌, ◌≢◌, ◌⊎◌, refl, false, some, none, arith, [],
}
use live_auction_system.Prelude.Int.{◌-ℤ◌, pos}
use live_auction_system.Prelude.Assoc.{Assoc, lookup, insert}
use live_auction_system.Model.Status.{sold, no_bid, is_terminal}
use live_auction_system.Model.Mode.{english, valid_mode}
use live_auction_system.Model.Rules.{Rules, validate}
use live_auction_system.Engine.Room.{Room, dedupe_get}
use live_auction_system.Engine.Invariant.{IsWellFormed}
use live_auction_system.Engine.PlaceBid.{
  adjudicate, duplicate, bid_refusal, state_refusal, amount_refusal, accept_bid,
}
use live_auction_system.Engine.PlaceBid.Samples.{good_types, bid_of}
use live_auction_system.Engine.Lifecycle.{
  freeze_rules, start_auction, close_auction, closed_sold, closed_no_bid,
}
use live_auction_system.Engine.Lifecycle.Outcome.{sold_at, no_bid_at}
use live_auction_system.Engine.Trace.{empty_room, Reach, here, next, bid, freeze, start, close}
use live_auction_system.Engine.Trace.Concluded.{IsConcluded, Reach-IsConcluded}
use live_auction_system.Engine.Trace.Leader.{IsLed, Reach-IsLed}
use live_auction_system.Engine.Trace.Terminal.{
  IsSameOutcome, AnyReach, here_any, next_any, sealed_bid, AnyReach-terminal,
}
use live_auction_system.Engine.Trace.Retry.{Reach-retry}
use live_auction_system.Engine.Trace.WellFormed.{Reach-IsWellFormed}
use live_auction_system.Engine.Sealed.{place_bid_sealed}
use live_auction_system.Engine.PlaceBid.Outcome.{acceptance}
use live_auction_system.Model.Events.{BidAcceptedData}
use live_auction_system.Engine.Trace.Hammer.{hammer_bounded, hammer_sells}

abbrev rules : Rules
rules = record {
  mode = english;
  start_price_cents = pos 100;
  increment_cents = pos 10;
  cap_price_cents = pos 500;
  duration_sec = pos 60;
  extend_window_sec = pos 10;
  extend_sec = pos 15;
  max_extensions = pos 3;
  live_play_url = 0;
  live_stream_key = 0;
}

rules_valid : validate rules ≡ none
unfolding validate valid_mode ◌-ℤ◌
rules_valid = refl

abbrev frozen : Room
frozen = (freeze_rules rules 9 (empty_room good_types)).1

abbrev started : Room
started = (start_auction 60000 1000 frozen).1

abbrev led : Room
led = (adjudicate false (bid_of 1 7 110) 55000 started).1

abbrev hammered : Room
hammered = (close_auction 90000 led).1

Reach-started : Reach (empty_room good_types) started
Reach-started =
    next (next here (freeze rules 9 (empty_room good_types) rules_valid)) (start 60000 1000 frozen)

Reach-bid : Reach started led
Reach-bid = next here (bid false (bid_of 1 7 110) 55000 started (omega arith))

Reach-led : Reach (empty_room good_types) led
Reach-led = next Reach-started (bid false (bid_of 1 7 110) 55000 started (omega arith))

Reach-IsConcluded_example : IsWellFormed led × IsConcluded led
Reach-IsConcluded_example = Reach-IsConcluded good_types Reach-led

Reach-IsLed_example : IsLed led
Reach-IsLed_example = Reach-IsLed good_types Reach-led

-- ZREVRANGE where there is nothing to rank.
abbrev no_ranking : Assoc ℕ → Assoc ℕ
no_ranking bids = []

late_sealed : AnyReach no_ranking hammered (place_bid_sealed (bid_of 2 8 130) 91000 hammered).1
late_sealed = next_any here_any (sealed_bid (bid_of 2 8 130) 91000 hammered)

AnyReach-terminal_example :
    IsSameOutcome hammered (place_bid_sealed (bid_of 2 8 130) 91000 hammered).1
unfolding freeze_rules start_auction close_auction adjudicate bid_refusal state_refusal
    amount_refusal accept_bid dedupe_get lookup insert is_terminal
AnyReach-terminal_example = AnyReach-terminal no_ranking late_sealed refl

-- The bid is sent again after the hammer.
Reach-retry_example :
    (ack : BidAcceptedData) × (acceptance (adjudicate false (bid_of 1 7 110) 55000 started).0
      ≡ some ack)
    × (adjudicate false (bid_of 1 7 130) 91000 hammered ≡ (duplicate ack, hammered))
unfolding freeze_rules start_auction adjudicate bid_refusal state_refusal amount_refusal accept_bid
    dedupe_get lookup insert
Reach-retry_example =
    Reach-retry false false (bid_of 1 7 110) (bid_of 1 7 130) 55000 91000 started
      (next here (close 90000 led)) refl refl refl (tt, tt)

hammer_bounded_example :
    led.state.end_at_ms
    ≤ started.state.end_at_ms + started.state.max_extensions * (started.state.extend_sec * 1000)
unfolding freeze_rules start_auction
hammer_bounded_example =
    hammer_bounded (Reach-IsWellFormed good_types Reach-started) refl (omega arith) Reach-bid

hammer_sells_example :
    let (reply, r') = close_auction 90000 led in
    ((led.state.winner_id ≢ 0)
      × (reply ≡ closed_sold (led.state.seq + 1) (sold_at 90000 led))
      × (r'.state.status ≡ sold)
      × (lookup led.state.winner_id led.leaderboard ≡ some led.state.current_price_cents)
      × ((u v : ℕ) → lookup u led.leaderboard ≡ some v → v ≤ led.state.current_price_cents))
    ⊎ ((reply ≡ closed_no_bid (led.state.seq + 1) (no_bid_at 90000 led))
        × (r'.state.status ≡ no_bid)
        × (led.leaderboard ≡ []))
unfolding freeze_rules start_auction adjudicate bid_refusal state_refusal amount_refusal accept_bid
    dedupe_get lookup insert
hammer_sells_example = hammer_sells good_types 90000 Reach-led refl (omega arith) refl
