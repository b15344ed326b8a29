-- ===== src/Engine/PlaceBid.antt =====
-- place_bid.lua and place_bid_hybrid.lua of apps/lumen/internal/lua. The two scripts share the
-- checks and the writes; the hybrid one also stores the leader's display name and puts a redacted
-- payload on the Stream. `now` is Redis TIME in milliseconds.
pub mod Admission
pub mod Keeps
pub mod Board
pub mod Outcome
pub mod Samples
mod Tests
use live_auction_system.Prelude.{
  ℕ, zero, ◌+◌, ◌-◌, ◌*◌, Bool, true, false, ◌&&◌, ◌||◌, not, if◌then◌else◌, Option, none, some,
  ltb, leb, ◌==◌,
}
use live_auction_system.Model.Status.{Status, sold, live, is_live}
use live_auction_system.Model.Events.{
  BidAcceptedData, AuctionExtendedData, AuctionSoldData, Event, bid_accepted, auction_extended,
  auction_sold,
}
use live_auction_system.Model.Rules.{max_money_cents}
use live_auction_system.Engine.Room.{
  AuctionState, Room, last_stream_seq, dedupe_get, dedupe_set, raise_score, publish, xadd, next_seq,
}

-- ARGV. `amount` is `tonumber(amountStr)`, `none` where that is nil.
pub record BidArgs : Type 0 where
  pub user_id : ℕ
  pub client_bid_id : ℕ
  pub amount : Option ℕ
  pub display_name : ℕ

pub data BidReply : Type 0 where
  ok_accepted : ℕ → BidAcceptedData → BidReply
  ok_extended : ℕ → BidAcceptedData → ℕ → AuctionExtendedData → BidReply
  ok_sold : ℕ → BidAcceptedData → ℕ → AuctionSoldData → BidReply
  duplicate : BidAcceptedData → BidReply
  err_not_live : Status → BidReply
  err_after_end err_too_low : ℕ → ℕ → BidReply
  err_not_allowed err_auction_paused err_key_type err_seq_stream_mismatch : BidReply
  -- an XADD that Redis refused
  script_error : BidReply

-- The cap-aware price that a bid must reach.
unfoldable pub required_price : AuctionState → ℕ
required_price s =
    let required = s.current_price_cents + s.increment_cents in
    if ltb 0 s.cap_price_cents && ltb s.cap_price_cents required
    then s.cap_price_cents
    else required

-- Step 4, on the amount.
unfoldable pub amount_refusal : AuctionState → Option ℕ → Option BidReply
unfolding required_price
amount_refusal s none = some (err_too_low 0 0)
amount_refusal s (some amount) =
    if amount == 0 || ltb max_money_cents amount
    then some (err_too_low amount 0)
    else if ltb amount (required_price s)
    then some (err_too_low amount (required_price s))
    else if ltb 0 s.cap_price_cents && ltb s.cap_price_cents amount
    then some (err_too_low amount (required_price s))
    else none

-- Steps 2 and 3: pause, status, seller and time.
unfoldable pub state_refusal : AuctionState → BidArgs → ℕ → Option BidReply
unfolding is_live
state_refusal s a now =
    if s.paused
    then some err_auction_paused
    else if not (is_live s.status)
    then some (err_not_live s.status)
    else if not (s.seller_id == 0) && a.user_id == s.seller_id
    then some err_not_allowed
    else if leb s.end_at_ms now
    then some (err_after_end s.end_at_ms now)
    else none

abbrev pub or_else : Option BidReply → Option BidReply → Option BidReply
or_else (some x) _ = some x
or_else none y = y

abbrev pub seq_refusal : Room → Option BidReply
seq_refusal r =
    if last_stream_seq r.stream == r.state.seq then none else some err_seq_stream_mismatch

abbrev pub types_ok : Room → Bool
types_ok r = r.types.state_ok && r.types.leaderboard_ok && r.types.stream_ok && r.types.dedupe_ok

abbrev pub as_duplicate : Option BidAcceptedData → Option BidReply
as_duplicate none = none
as_duplicate (some ack) = some (duplicate ack)

-- Steps 0 to 5: the reply of the first check that fails. None of them writes.
unfoldable pub bid_refusal : Room → BidArgs → ℕ → Option BidReply
bid_refusal r a now =
    if types_ok r
    then or_else (as_duplicate (dedupe_get a.user_id a.client_bid_id r)) (
        or_else (state_refusal r.state a now)
          (or_else (amount_refusal r.state a.amount) (seq_refusal r)))
    else some err_key_type

unfoldable pub is_cap_hit : AuctionState → ℕ → Bool
is_cap_hit s amount = ltb 0 s.cap_price_cents && leb s.cap_price_cents amount

-- Anti-snipe: inside the window, and under the extension cap (0 is unlimited).
unfoldable pub extends : AuctionState → ℕ → ℕ → Bool
unfolding is_cap_hit
extends s amount now =
    not (is_cap_hit s amount)
    && (ltb 0 s.extend_window_sec
        && (ltb 0 s.extend_sec
            && (leb (s.end_at_ms - now) (s.extend_window_sec * 1000)
                && (s.max_extensions == 0 || ltb s.extend_count s.max_extensions))))

-- The state Hash after the HINCRBY, HMSET and HSET of step 6.
unfoldable pub accepted_state : Bool → AuctionState → BidArgs → ℕ → ℕ → AuctionState
unfolding is_cap_hit extends
accepted_state hybrid s a amount now = record s {
  status = if is_cap_hit s amount then sold else s.status;
  winner_id = a.user_id;
  winner_display_name = if hybrid then a.display_name else s.winner_display_name;
  seq = s.seq + 1;
  bid_count = s.bid_count + 1;
  current_price_cents = amount;
  extend_count = if extends s amount now then s.extend_count + 1 else s.extend_count;
  end_at_ms = if extends s amount now then s.end_at_ms + s.extend_sec * 1000 else s.end_at_ms;
}

-- The bidder's own ack, with the true amount.
unfoldable pub ack_bid : AuctionState → AuctionState → BidArgs → ℕ → ℕ → BidAcceptedData
unfolding is_cap_hit
ack_bid s s' a amount now = record {
  seq = s'.seq;
  user_id = a.user_id;
  display_name = a.display_name;
  amount_cents = amount;
  end_at_ms = s'.end_at_ms;
  status = if is_cap_hit s amount then sold else live;
  bid_count = s'.bid_count;
  server_time_ms = now;
}

-- What the room sees: of a hybrid bid that does not hit the cap, the leader and price before it.
unfoldable pub stream_bid : Bool → AuctionState → ℕ → BidAcceptedData → BidAcceptedData
unfolding is_cap_hit
stream_bid hybrid s amount ack =
    if hybrid && not (is_cap_hit s amount)
    then record ack {
      user_id = s.winner_id;
      display_name = s.winner_display_name;
      amount_cents = s.current_price_cents;
    }
    else ack

-- Step 8, after the bid's own event: AUCTION_EXTENDED or AUCTION_SOLD with a `seq` of its own.
second_event : Bool → Bool → BidAcceptedData → Room → BidReply × Room
unfolding xadd
second_event true cap_hit ack r =
    let r' = next_seq r in
    let e : AuctionExtendedData = record {
      seq = r'.state.seq;
      end_at_ms = r'.state.end_at_ms;
      extend_count = r'.state.extend_count;
      server_time_ms = ack.server_time_ms;
    } in
    xadd (auction_extended e) script_error
      (λ q. (ok_extended ack.seq ack e.seq e, publish (auction_extended e) q)) r'
second_event false true ack r =
    let r' = next_seq r in
    let e : AuctionSoldData = record {
      seq = r'.state.seq;
      winner_id = ack.user_id;
      amount_cents = ack.amount_cents;
      status = sold;
      server_time_ms = ack.server_time_ms;
    } in
    xadd (auction_sold e) script_error
      (λ q. (ok_sold ack.seq ack e.seq e, publish (auction_sold e) q)) r'
second_event false false ack r = (ok_accepted ack.seq ack, r)

-- Steps 6 to 8.
unfoldable pub accept_bid : Bool → BidArgs → ℕ → ℕ → Room → BidReply × Room
unfolding accepted_state ack_bid stream_bid second_event xadd dedupe_set raise_score
accept_bid hybrid a amount now r =
    let s = r.state in
    let s' = accepted_state hybrid s a amount now in
    let ack = ack_bid s s' a amount now in
    let seen = stream_bid hybrid s amount ack in
    xadd (bid_accepted seen) script_error
      (λ q.
        second_event (extends s amount now) (is_cap_hit s amount) ack
          (publish (bid_accepted seen) (dedupe_set a.user_id a.client_bid_id ack q)))
      (record r { state = s'; leaderboard = raise_score a.user_id amount r.leaderboard })

abbrev amount_or_zero : Option ℕ → ℕ
amount_or_zero none = 0
amount_or_zero (some n) = n

-- Either script: `hybrid` tells which.
unfoldable pub adjudicate : Bool → BidArgs → ℕ → Room → BidReply × Room
adjudicate hybrid a now r = elim (bid_refusal r a now) [
  | some reply ↦ (reply, r)
  | none ↦ accept_bid hybrid a (amount_or_zero a.amount) now r
]

-- place_bid.lua
unfoldable pub place_bid : BidArgs → ℕ → Room → BidReply × Room
unfolding adjudicate bid_refusal state_refusal amount_refusal dedupe_get accept_bid
place_bid = adjudicate false

-- place_bid_hybrid.lua
unfoldable pub place_bid_hybrid : BidArgs → ℕ → Room → BidReply × Room
unfolding adjudicate bid_refusal state_refusal amount_refusal dedupe_get accept_bid
place_bid_hybrid = adjudicate true
