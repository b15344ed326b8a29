-- ===== src/Server/Persistence/Tests.antt =====
-- Runs of the persistence worker on a small auction, and on a MAC that adds up its input.
use live_auction_system.Prelude.{
  ℕ, suc, ◌+◌, ◌*◌, ◌≡◌, refl, true, false, Option, none, some, List, [], ◌∷◌, arith,
}
use live_auction_system.Prelude.Int.{pos}
use live_auction_system.Model.Status.{live, order_created}
use live_auction_system.Model.Mode.{Mode, english, all_pay}
use live_auction_system.Model.Events.{type_bid_accepted, type_auction_sold}
use live_auction_system.Store.Stream.{StreamEvent, Fetch, read_events_after}
use live_auction_system.Store.Evidence.{MacInput, verify_full, chain_ok}
use live_auction_system.Store.Evidence.Project.{events_of}
use live_auction_system.Store.Orders.{
  Tables, AuctionRow, Order, SoldPayload, ForfeitPayload, write_ok, write_failed, write_lost, paid,
  create_order_from_sold, insert_order, order_matches, order_projection_mismatch,
}
use live_auction_system.Server.Persistence.{SoldFaults, project_sold, has_all_pay_rules}
use live_auction_system.Server.Persistence.Sale.{no_faults}
use live_auction_system.Server.Persistence.Retry.{
  attempts, sale_order, retry_converges, sold_settles,
}
use live_auction_system.Server.Persistence.Calls.{
  Call, call_sold, call_pay, calls, all_pay-no_order,
}
use live_auction_system.Server.Persistence.OrderLife.{Advances, unsold, life, calls-Advances}
use live_auction_system.Server.Persistence.Pass.{Worker, project_auction}
use live_auction_system.Server.Persistence.Moves.{calm}
use live_auction_system.Server.Persistence.CatchUp.{stored, project_catches_up}

abbrev auction : AuctionRow
auction = record {
  product_id = 7;
  seller_id = 1;
  status = live;
  current_price_cents = pos 100;
  winner_id = 0;
}

abbrev tables : Mode → Tables
tables mode = record {
  auction = some auction;
  rules_mode = some mode;
  order = none;
  coin_ledger = [];
}

abbrev sale : SoldPayload
sale = record { seq = 2; winner_id = 5; amount_cents = some (pos 900) }

-- The INSERT loses its reply.
abbrev lossy : SoldFaults
lossy = record no_faults {
  order = record { product_fails = false; insert_order = write_lost; get_order_fails = false };
}

-- The status stays behind the order.
abbrev unmarked : SoldFaults
unmarked = record no_faults { mark_created = write_failed }

sold_settles_example :
    project_sold no_faults
      (some sale)
      (attempts (some sale) (lossy ∷ unmarked ∷ []) (tables english))
    ≡ (
      none,
      record (tables english) {
        auction = some (record auction {
          status = order_created;
          current_price_cents = pos 900;
          winner_id = 5;
        });
        order = some (sale_order auction sale (pos 900));
      },
    )
unfolding has_all_pay_rules
sold_settles_example =
    sold_settles sale (tables english) auction (pos 900) (lossy ∷ unmarked ∷ []) refl refl refl refl
      refl

retry_converges_example :
    project_sold no_faults (some sale) (attempts (some sale) (lossy ∷ []) (tables all_pay))
    ≡ project_sold no_faults (some sale) (tables all_pay)
retry_converges_example =
    retry_converges (some sale) (lossy ∷ []) (tables all_pay) ((λ _. refl), tt)

abbrev order : Order
order = sale_order auction sale (pos 900)

all_pay-no_order_example :
    (calls (call_sold lossy (some sale) ∷ call_pay write_ok false 50 ∷ []) (tables all_pay)).order
    ≡ none
unfolding has_all_pay_rules
all_pay-no_order_example =
    all_pay-no_order (call_sold lossy (some sale) ∷ call_pay write_ok false 50 ∷ [])
      (tables all_pay) refl refl (refl, tt)

-- A sale that is projected again once its order is paid is a mismatch.
abbrev paid_tables : Tables
paid_tables = record (tables english) {
  order = some (record order { status = paid; paid_at = some 50 });
}

mismatch_when_paid :
    (project_sold no_faults (some sale) paid_tables).0 ≡ some order_projection_mismatch
unfolding project_sold create_order_from_sold insert_order order_matches has_all_pay_rules
mismatch_when_paid = refl

-- On an ALL_PAY auction whose rules cannot be read, the sale makes an order.
order_of_all_pay :
    (project_sold
      (record no_faults { get_rules_fails = true })
      (some sale)
      (tables all_pay)).1.order
    ≡ some (sale_order auction sale (pos 900))
unfolding project_sold create_order_from_sold insert_order has_all_pay_rules
order_of_all_pay = refl

abbrev toy_mac : MacInput → ℕ
toy_mac x = suc (x.key + x.prev * 3 + x.seq * 5 + x.event_type * 7 + x.payload * 11)

abbrev keys : ℕ → Option ℕ
keys _ = some 4

abbrev stream : List StreamEvent
stream =
    record { id = 1; seq = 1; event_type = type_bid_accepted; payload = 30 }
    ∷ record { id = 2; seq = 2; event_type = type_auction_sold; payload = 40 }
    ∷ []

abbrev fetch : Fetch
fetch _ _ = some stream

abbrev decode_sold : ℕ → Option SoldPayload
decode_sold _ = some sale

abbrev decode_forfeit : ℕ → Option ForfeitPayload
decode_forfeit _ = none

abbrev worker : Worker
worker = record { tables = tables english; rows = []; last_id = none }

project_catches_up_example :
    let w' = project_auction toy_mac keys 1 4 decode_sold decode_forfeit fetch 5 calm worker in
    (w'.last_id ≡ some 2)
    × (events_of w'.rows ≡ stored stream)
    × ((h' : ℕ) × (verify_full toy_mac keys w'.rows ≡ chain_ok 2 h'))
unfolding verify_full read_events_after
project_catches_up_example =
    project_catches_up toy_mac keys 1 4 decode_sold decode_forfeit (λ x. ground arith) refl fetch 5
      stream (some 2) worker 0 0 refl refl (refl, (refl, tt))
      (tt, ((sale, pos 900, refl, refl, refl), tt))

abbrev three_calls : List Call
three_calls =
    call_sold lossy (some sale)
    ∷ call_pay write_lost false 50
    ∷ call_sold no_faults (some sale)
    ∷ []

calls-Advances_example :
    Advances three_calls unsold (life (calls three_calls (tables english)).order)
calls-Advances_example = calls-Advances three_calls (tables english)
