-- ===== src/Engine/SealedClose.antt =====
-- close_auction_sealed.lua and close_auction_allpay.lua of apps/lumen/internal/lua, and their choice
-- by `CloseAuctionDetailed` of apps/lumen/internal/store/store.go. `now` is Redis TIME in milliseconds.
pub mod Ranking
pub mod Bids
pub mod Hammer
pub mod Sale
pub mod Auction
mod Tests
use live_auction_system.Prelude.{
  ℕ, ◌+◌, Bool, true, false, ◌&&◌, not, if◌then◌else◌, ltb, ◌==◌, List, [], ◌∷◌, Option, none, some,
}
use live_auction_system.Prelude.Assoc.{Assoc, lookup, insert}
use live_auction_system.Model.Status.{sold, no_bid, is_live}
use live_auction_system.Model.Mode.{Mode, sealed_first, vickrey, all_pay, normalize_mode}
use live_auction_system.Model.Events.{
  Event, RevealedBid, AuctionRevealedData, AuctionSoldData, AuctionNoBidData, AllPayForfeitData,
  auction_revealed, auction_sold, auction_no_bid, all_pay_forfeit,
}
use live_auction_system.Engine.Room.{Room, last_stream_seq, publish, xadd, next_seq}
use live_auction_system.Engine.Lifecycle.{
  CloseReply, closed_sold, closed_no_bid, err_not_due, err_already_terminal, close_key_type,
  close_seq_mismatch, close_script_error, close_auction,
}

pub data PriceMode : Type 0 where
  first_price second_price : PriceMode

-- HINCRBY seq 1, then the XADD and PUBLISH of the event with that seq.
unfoldable pub emit : (ℕ → Event) → (ℕ → Room → CloseReply × Room) → Room → CloseReply × Room
unfolding xadd
emit event next r =
    let q = next_seq r in
    xadd (event q.state.seq) close_script_error
      (λ t. next q.state.seq (publish (event q.state.seq) t)) q

abbrev or_nobody : Option ℕ → ℕ
or_nobody none = 0
or_nobody (some name) = name

-- The revealed list of a ranking, with the names of the bidders.
unfoldable pub revealed : Assoc ℕ → Assoc ℕ → List RevealedBid
revealed names [] = []
revealed names ((user, amount) ∷ ranking) =
    record { user_id = user; display_name = or_nobody (lookup user names); amount_cents = amount }
    ∷ revealed names ranking

-- The ZADDs of the loop.
unfoldable pub zadd_all : Assoc ℕ → Assoc ℕ → Assoc ℕ
zadd_all [] board = board
zadd_all ((user, amount) ∷ ranking) board = zadd_all ranking (insert user amount board)

-- `finalPrice`, of the top amount and the rest of the ranking.
unfoldable pub final_price : PriceMode → ℕ → ℕ → Assoc ℕ → ℕ
final_price first_price start top rest = top
final_price second_price start top [] = start
final_price second_price start top ((_, amount) ∷ _) = amount

-- The state Hash, leaderboard and names as the loop and the HSET leave them.
abbrev pub hammered : ℕ → ℕ → Assoc ℕ → Room → Room
hammered winner price ranking r = record r {
  state = record r.state { winner_id = winner; current_price_cents = price; status = sold };
  leaderboard = zadd_all ranking r.leaderboard;
}

abbrev pub revealed_event : ℕ → ℕ → List RevealedBid → ℕ → ℕ → Event
revealed_event winner price bids now seq = auction_revealed (record {
  seq = seq;
  bids = bids;
  winner_id = winner;
  amount_cents = price;
  server_time_ms = now;
})

abbrev pub sold_data : ℕ → ℕ → ℕ → ℕ → AuctionSoldData
sold_data winner price now seq = record {
  seq = seq;
  winner_id = winner;
  amount_cents = price;
  status = sold;
  server_time_ms = now;
}

-- The AUCTION_SOLD event, and the DEL of the private keys.
unfoldable pub sell : ℕ → ℕ → ℕ → Room → CloseReply × Room
unfolding emit
sell winner price now r =
    emit (λ seq. auction_sold (sold_data winner price now seq))
      (λ seq t. (
        closed_sold seq (sold_data winner price now seq),
        record t { sealed_bids = []; sealed_names = [] },
      ))
      r

-- The branch without sealed bids.
unfoldable pub close_unbid : ℕ → Room → CloseReply × Room
unfolding emit
close_unbid now r =
    let data_of : ℕ → AuctionNoBidData =
      λ seq. record { seq = seq; status = no_bid; server_time_ms = now } in
    emit (λ seq. auction_no_bid (data_of seq)) (λ seq t. (closed_no_bid seq (data_of seq), t))
      (record r { state = record r.state { status = no_bid } })

-- The branch of close_auction_sealed.lua with sealed bids.
unfoldable pub hammer_sealed : PriceMode → ℕ → ℕ → ℕ → Assoc ℕ → Room → CloseReply × Room
unfolding emit sell revealed final_price zadd_all
hammer_sealed mode now winner top rest r =
    let ranking = (winner, top) ∷ rest in
    let price = final_price mode r.state.start_price_cents top rest in
    emit (revealed_event winner price (revealed r.sealed_names ranking) now)
      (λ _ t. sell winner price now t) (hammered winner price ranking r)

abbrev pub forfeit_event : ℕ → ℕ → ℕ → ℕ → Event
forfeit_event user amount now seq =
    all_pay_forfeit
      (record { seq = seq; user_id = user; coins_forfeit = amount; server_time_ms = now })

-- The ALL_PAY_FORFEIT event of the runner-up, if there is one, and what follows.
unfoldable pub forfeit : ℕ → Assoc ℕ → (Room → CloseReply × Room) → Room → CloseReply × Room
unfolding emit
forfeit now [] next r = next r
forfeit now ((user, amount) ∷ _) next r = emit (forfeit_event user amount now) (λ _ t. next t) r

-- The branch of close_auction_allpay.lua with sealed bids.
unfoldable pub hammer_all_pay : ℕ → ℕ → ℕ → Assoc ℕ → Room → CloseReply × Room
unfolding emit sell revealed forfeit zadd_all
hammer_all_pay now winner top rest r =
    let ranking = (winner, top) ∷ rest in
    emit (revealed_event winner top (revealed r.sealed_names ranking) now)
      (λ _ t. forfeit now rest (sell winner top now) t) (hammered winner top ranking r)

abbrev pub sealed_keys_ok : Room → Bool
sealed_keys_ok r =
    r.types.state_ok && r.types.stream_ok && r.types.sealed_ok && r.types.sealed_names_ok
    && r.types.leaderboard_ok

-- The guards that the two scripts share.
unfoldable pub close_refusal : ℕ → Room → Option CloseReply
unfolding is_live
close_refusal now r =
    if not (sealed_keys_ok r)
    then some close_key_type
    else if not (is_live r.state.status)
    then some (err_already_terminal r.state.status)
    else if ltb now r.state.end_at_ms
    then some (err_not_due r.state.end_at_ms now)
    else if not (last_stream_seq r.stream == r.state.seq)
    then some close_seq_mismatch
    else none

-- `ZREVRANGE key 0 -1 WITHSCORES` is a parameter.
module _ (zrevrange : Assoc ℕ → Assoc ℕ) where
  -- close_auction_sealed.lua
  unfoldable pub close_auction_sealed : PriceMode → ℕ → Room → CloseReply × Room
  unfolding close_refusal close_unbid hammer_sealed
  close_auction_sealed mode now r = elim (close_refusal now r) [
    | some reply ↦ (reply, r)
    | none ↦ elim (zrevrange r.sealed_bids) [
      | [] ↦ close_unbid now r
      | (winner, top) ∷ rest ↦ hammer_sealed mode now winner top rest r
    ]
  ]

  -- close_auction_allpay.lua
  unfoldable pub close_auction_all_pay : ℕ → Room → CloseReply × Room
  unfolding close_refusal close_unbid hammer_all_pay
  close_auction_all_pay now r = elim (close_refusal now r) [
    | some reply ↦ (reply, r)
    | none ↦ elim (zrevrange r.sealed_bids) [
      | [] ↦ close_unbid now r
      | (winner, top) ∷ rest ↦ hammer_all_pay now winner top rest r
    ]
  ]

  close_as : Mode → ℕ → Room → CloseReply × Room
  unfolding close_auction_sealed close_auction_all_pay close_auction
  close_as sealed_first now r = close_auction_sealed first_price now r
  close_as vickrey now r = close_auction_sealed second_price now r
  close_as all_pay now r = close_auction_all_pay now r
  close_as _ now r = close_auction now r

  -- The script that `CloseAuctionDetailed` runs, for a mode read without an error.
  unfoldable pub close_auction_detailed : ℕ → Room → CloseReply × Room
  unfolding close_as normalize_mode
  close_auction_detailed now r =
      if r.types.state_ok then close_as (normalize_mode r.state.mode) now r else (close_key_type, r)
