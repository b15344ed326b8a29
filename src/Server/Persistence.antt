-- ===== src/Server/Persistence.antt =====
-- The persistence worker: apps/lumen/internal/server/persistence.go.
mod Tests
pub mod Sale
pub mod Keeps
pub mod Retry
pub mod Calls
pub mod OrderLife
pub mod Pass
pub mod Moves
pub mod CatchUp
use live_auction_system.Prelude.{
  ℕ, Bool, true, false, Option, none, some, if◌then◌else◌, ◌==◌, List, [], ◌∷◌,
}
use live_auction_system.Model.Status.{Status, order_created, sold, no_bid, cancelled}
use live_auction_system.Model.Mode.{Mode, normalize_mode, all_pay}
use live_auction_system.Model.Events.{EventType, type_auction_no_bid, type_auction_cancelled}
use live_auction_system.Store.Orders.{
  Tables, Outcome, Write, SoldPayload, OrderFaults, transient, permanent_order_projection, then_do,
  finalize_auction_sold, update_auction_status, project_all_pay_win, create_order_from_sold,
}

-- What the calls of one `projectSold` meet: a read fails or not, a write ends in one of three ways.
pub record SoldFaults : Type 0 where
  pub get_auction_fails : Bool
  pub finalize : Write
  pub mark_sold : Write
  pub get_rules_fails : Bool
  pub ledger : Write
  pub order : OrderFaults
  pub mark_created : Write

is_order_created : Status → Bool
is_order_created order_created = true
is_order_created _ = false

is_all_pay : Mode → Bool
is_all_pay all_pay = true
is_all_pay _ = false

-- `model.NormalizeMode(rules.Mode) == model.ModeAllPay`, of the rules row.
unfoldable pub has_all_pay_rules : Option Mode → Bool
unfolding is_all_pay normalize_mode
has_all_pay_rules none = false
has_all_pay_rules (some m) = is_all_pay (normalize_mode m)

-- The guarded call of `FinalizeAuctionSold`.
unfoldable pub finalize : Write → Option SoldPayload → Tables → Outcome
unfolding finalize_auction_sold
finalize w none t = (none, t)
finalize w (some d) t = if d.winner_id == 0 then (none, t) else elim d.amount_cents [
  | none ↦ (none, t)
  | some amount ↦ finalize_auction_sold w d.winner_id amount t
]

-- The update to SOLD, for the status that was read first.
unfoldable pub mark_sold : Write → Status → Tables → Outcome
unfolding is_order_created update_auction_status
mark_sold w status t = if is_order_created status then (none, t) else update_auction_status w sold t

-- From the ALL_PAY gate on.
unfoldable pub settle : SoldFaults → Option SoldPayload → Tables → Outcome
unfolding has_all_pay_rules project_all_pay_win create_order_from_sold update_auction_status
settle f d t =
    if (if f.get_rules_fails then false else has_all_pay_rules t.rules_mode)
    then project_all_pay_win f.ledger d t
    else then_do (create_order_from_sold f.order d t)
        (update_auction_status f.mark_created order_created)

-- `projectSold`
unfoldable pub project_sold : SoldFaults → Option SoldPayload → Tables → Outcome
unfolding finalize mark_sold settle
project_sold f d t = if f.get_auction_fails then (some transient, t) else elim t.auction [
  | none ↦ (some permanent_order_projection, t)
  | some a ↦
      then_do (finalize f.finalize d t)
        (λ t1. then_do (mark_sold f.mark_sold a.status t1) (settle f d))
]

-- `terminalStatus`
unfoldable pub terminal_status : EventType → Option Status
terminal_status type_auction_no_bid = some no_bid
terminal_status type_auction_cancelled = some cancelled
terminal_status _ = none
