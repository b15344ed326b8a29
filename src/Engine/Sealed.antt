-- ===== src/Engine/Sealed.antt =====
-- place_bid_sealed.lua of apps/lumen/internal/lua: the amount stays private, and the room sees only
-- the count of bidders. `now` is Redis TIME in milliseconds.
use live_auction_system.Prelude.{
  ℕ, Bool, ◌&&◌, ◌||◌, if◌then◌else◌, Option, none, some, ltb, ◌==◌, length,
}
use live_auction_system.Prelude.Assoc.{insert}
use live_auction_system.Model.Status.{live}
use live_auction_system.Model.Events.{BidAcceptedData, SealedBidReceivedData, sealed_bid_received}
use live_auction_system.Model.Rules.{max_money_cents}
use live_auction_system.Engine.Room.{
  AuctionState, Room, dedupe_get, dedupe_set, raise_score, publish, xadd, next_seq,
}
use live_auction_system.Engine.PlaceBid.{
  BidArgs, BidReply, ok_accepted, err_too_low, err_key_type, script_error, state_refusal, or_else,
  seq_refusal, as_duplicate,
}

-- The sealed checks on the amount: the start price, and no increment.
unfoldable pub sealed_amount_refusal : AuctionState → Option ℕ → Option BidReply
sealed_amount_refusal s none = some (err_too_low 0 s.start_price_cents)
sealed_amount_refusal s (some amount) =
    if amount == 0 || ltb max_money_cents amount
    then some (err_too_low amount s.start_price_cents)
    else if ltb amount s.start_price_cents
    then some (err_too_low amount s.start_price_cents)
    else if ltb 0 s.cap_price_cents && ltb s.cap_price_cents amount
    then some (err_too_low amount s.cap_price_cents)
    else none

abbrev pub sealed_types_ok : Room → Bool
sealed_types_ok r =
    r.types.state_ok && r.types.sealed_ok && r.types.sealed_names_ok && r.types.stream_ok
    && r.types.dedupe_ok

unfoldable pub sealed_refusal : Room → BidArgs → ℕ → Option BidReply
unfolding state_refusal sealed_amount_refusal dedupe_get
sealed_refusal r a now =
    if sealed_types_ok r
    then or_else (as_duplicate (dedupe_get a.user_id a.client_bid_id r)) (
        or_else (state_refusal r.state a now)
          (or_else (sealed_amount_refusal r.state a.amount) (seq_refusal r)))
    else some err_key_type

-- The writes, from the ZADD on.
unfoldable pub accept_sealed : BidArgs → ℕ → ℕ → Room → BidReply × Room
unfolding raise_score xadd dedupe_set
accept_sealed a amount now r =
    let bids = raise_score a.user_id amount r.sealed_bids in
    let q = next_seq (record r {
      sealed_bids = bids;
      sealed_names = insert a.user_id a.display_name r.sealed_names;
    }) in
    let recv : SealedBidReceivedData = record {
      seq = q.state.seq;
      display_name = a.display_name;
      count = length bids;
      server_time_ms = now;
    } in
    let ack : BidAcceptedData = record {
      seq = q.state.seq;
      user_id = a.user_id;
      display_name = a.display_name;
      amount_cents = amount;
      end_at_ms = r.state.end_at_ms;
      status = live;
      bid_count = 0;
      server_time_ms = now;
    } in
    xadd (sealed_bid_received recv) script_error
      (λ t. (
        ok_accepted ack.seq ack,
        dedupe_set a.user_id a.client_bid_id ack (publish (sealed_bid_received recv) t),
      ))
      q

abbrev pub amount_or_zero : Option ℕ → ℕ
amount_or_zero none = 0
amount_or_zero (some n) = n

-- place_bid_sealed.lua
unfoldable pub place_bid_sealed : BidArgs → ℕ → Room → BidReply × Room
unfolding sealed_refusal accept_sealed
place_bid_sealed a now r = elim (sealed_refusal r a now) [
  | some reply ↦ (reply, r)
  | none ↦ accept_sealed a (amount_or_zero a.amount) now r
]
