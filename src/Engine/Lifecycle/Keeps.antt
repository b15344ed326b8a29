-- ===== src/Engine/Lifecycle/Keeps.antt =====
-- Freezing, starting, closing and cancelling keep the room well formed.
use live_auction_system.Prelude.{ℕ, ◌≡◌, none, arith}
use live_auction_system.Model.Status.{is_terminal}
use live_auction_system.Model.Events.{event_seq}
use live_auction_system.Model.Rules.{Rules, validate}
use live_auction_system.Model.Rules.Spec.{IsValidRules, IsValidRules-of_validate}
use live_auction_system.Engine.Room.{Room}
use live_auction_system.Engine.Invariant.{IsPriced, IsWellFormed}
use live_auction_system.Engine.Lifecycle.{
  frozen_state, freeze_rules, start_auction, close_auction, cancel_auction,
}

frozen_state-IsPriced :
    (rules : Rules) (seller : ℕ) (r : Room)
    → IsValidRules rules
    → IsPriced (frozen_state rules seller r.state)
unfolding frozen_state
frozen_state-IsPriced rules seller r v = ground arith

pub freeze_rules-IsWellFormed :
    (rules : Rules) (seller : ℕ) (r : Room)
    → validate rules ≡ none
    → IsWellFormed r
    → IsWellFormed (freeze_rules rules seller r).1
unfolding freeze_rules is_terminal
freeze_rules-IsWellFormed rules seller r v w =
    ground (arith, frozen_state-IsPriced rules seller r (IsValidRules-of_validate rules v))

pub start_auction-IsWellFormed :
    (duration_ms now : ℕ) (r : Room)
    → IsWellFormed r
    → IsWellFormed (start_auction duration_ms now r).1
unfolding start_auction is_terminal
start_auction-IsWellFormed duration_ms now r w = ground arith

pub close_auction-IsWellFormed :
    (now : ℕ) (r : Room) → IsWellFormed r → IsWellFormed (close_auction now r).1
unfolding close_auction is_terminal event_seq
close_auction-IsWellFormed now r w = ground arith

pub cancel_auction-IsWellFormed :
    (caller now : ℕ) (r : Room) → IsWellFormed r → IsWellFormed (cancel_auction caller now r).1
unfolding cancel_auction is_terminal event_seq
cancel_auction-IsWellFormed caller now r w = ground arith
