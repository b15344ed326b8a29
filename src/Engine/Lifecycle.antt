-- ===== src/Engine/Lifecycle.antt =====
-- freeze_rules.lua, start_auction.lua, close_auction.lua and cancel_auction.lua of
-- apps/lumen/internal/lua. `now` is Redis TIME in milliseconds.
pub mod Keeps
pub mod Outcome
use live_auction_system.Prelude.{
  ℕ, ◌+◌, ◌*◌, Bool, true, false, ◌&&◌, ◌||◌, not, if◌then◌else◌, ltb, leb, ◌==◌,
}
use live_auction_system.Prelude.Int.{ℤ, pos_part}
use live_auction_system.Model.Status.{
  Status, missing, draft, scheduled, live, sold, no_bid, cancelled, is_live, is_terminal,
}
use live_auction_system.Model.Mode.{Mode, default_mode, english}
use live_auction_system.Model.Events.{
  AuctionSoldData, AuctionNoBidData, AuctionCancelledData, auction_sold, auction_no_bid,
  auction_cancelled,
}
use live_auction_system.Model.Rules.{Rules}
use live_auction_system.Engine.Room.{AuctionState, Room, last_stream_seq, publish, xadd, next_seq}

pub data FreezeReply : Type 0 where
  ok_frozen freeze_bad_key_type : FreezeReply
  freeze_bad_state : Status → FreezeReply

-- `not status or status == 'DRAFT'`
is_unfrozen : Status → Bool
is_unfrozen missing = true
is_unfrozen draft = true
is_unfrozen _ = false

-- `r.mode or 'ENGLISH'`, where the JSON omits an empty mode.
frozen_mode : Mode → Mode
frozen_mode default_mode = english
frozen_mode m = m

-- The HMSET of freeze_rules.lua. The rules have passed `validate`, so no number is negative. It
-- leaves `endAtMs` and `bidCount` alone.
unfoldable pub frozen_state : Rules → ℕ → AuctionState → AuctionState
unfolding frozen_mode
frozen_state rules seller s = record s {
  status = scheduled;
  mode = frozen_mode rules.mode;
  start_price_cents = pos_part rules.start_price_cents;
  current_price_cents = pos_part rules.start_price_cents;
  increment_cents = pos_part rules.increment_cents;
  cap_price_cents = pos_part rules.cap_price_cents;
  extend_window_sec = pos_part rules.extend_window_sec;
  extend_sec = pos_part rules.extend_sec;
  max_extensions = pos_part rules.max_extensions;
  extend_count = 0;
  winner_id = 0;
  seller_id = seller;
  seq = 0;
  paused = false;
}

-- freeze_rules.lua
unfoldable pub freeze_rules : Rules → ℕ → Room → FreezeReply × Room
unfolding is_unfrozen frozen_state
freeze_rules rules seller r =
    if not r.types.state_ok
    then (freeze_bad_key_type, r)
    else if not (is_unfrozen r.state.status)
    then (freeze_bad_state r.state.status, r)
    else (ok_frozen, record r { state = frozen_state rules seller r.state })

pub data StartReply : Type 0 where
  ok_live : ℕ → StartReply
  start_bad_key_type : StartReply
  start_bad_state : Status → StartReply

is_scheduled : Status → Bool
is_scheduled scheduled = true
is_scheduled _ = false

-- start_auction.lua
unfoldable pub start_auction : ℕ → ℕ → Room → StartReply × Room
unfolding is_scheduled
start_auction duration_ms now r =
    if not r.types.state_ok
    then (start_bad_key_type, r)
    else if not (is_scheduled r.state.status)
    then (start_bad_state r.state.status, r)
    else (
      ok_live (now + duration_ms),
      record r { state = record r.state { status = live; end_at_ms = now + duration_ms } },
    )

pub data CloseReply : Type 0 where
  closed_sold : ℕ → AuctionSoldData → CloseReply
  closed_no_bid : ℕ → AuctionNoBidData → CloseReply
  err_not_due : ℕ → ℕ → CloseReply
  err_already_terminal : Status → CloseReply
  close_key_type close_seq_mismatch close_script_error : CloseReply

-- The HSET, XADD and PUBLISH of close_auction.lua after its HINCRBY, for a room with a winner.
close_sold : ℕ → Room → CloseReply × Room
unfolding xadd
close_sold now r =
    let e : AuctionSoldData = record {
      seq = r.state.seq;
      winner_id = r.state.winner_id;
      amount_cents = r.state.current_price_cents;
      status = sold;
      server_time_ms = now;
    } in
    xadd (auction_sold e) close_script_error
      (λ q. (closed_sold e.seq e, publish (auction_sold e) q))
      (record r { state = record r.state { status = sold } })

-- The same for a room without a winner.
close_no_bid : ℕ → Room → CloseReply × Room
unfolding xadd
close_no_bid now r =
    let e : AuctionNoBidData = record {
      seq = r.state.seq;
      status = no_bid;
      server_time_ms = now;
    } in
    xadd (auction_no_bid e) close_script_error
      (λ q. (closed_no_bid e.seq e, publish (auction_no_bid e) q))
      (record r { state = record r.state { status = no_bid } })

-- close_auction.lua
unfoldable pub close_auction : ℕ → Room → CloseReply × Room
unfolding close_sold close_no_bid is_live
close_auction now r =
    if not (r.types.state_ok && r.types.stream_ok)
    then (close_key_type, r)
    else if not (is_live r.state.status)
    then (err_already_terminal r.state.status, r)
    else if ltb now r.state.end_at_ms
    then (err_not_due r.state.end_at_ms now, r)
    else if not (last_stream_seq r.stream == r.state.seq)
    then (close_seq_mismatch, r)
    else if not (r.state.winner_id == 0)
    then close_sold now (next_seq r)
    else close_no_bid now (next_seq r)

pub data CancelReply : Type 0 where
  ok_cancelled : ℕ → AuctionCancelledData → CancelReply
  cancel_not_allowed cancel_key_type cancel_seq_mismatch cancel_script_error : CancelReply
  cancel_already_terminal : Status → CancelReply

is_missing : Status → Bool
is_missing missing = true
is_missing _ = false

-- cancel_auction.lua
unfoldable pub cancel_auction : ℕ → ℕ → Room → CancelReply × Room
unfolding is_missing is_terminal xadd
cancel_auction caller now r =
    if not (r.types.state_ok && r.types.stream_ok)
    then (cancel_key_type, r)
    else if is_missing r.state.status || is_terminal r.state.status
    then (cancel_already_terminal r.state.status, r)
    else if r.state.seller_id == 0 || not (caller == r.state.seller_id)
    then (cancel_not_allowed, r)
    else if not (last_stream_seq r.stream == r.state.seq)
    then (cancel_seq_mismatch, r)
    else let q = next_seq r in
      let e : AuctionCancelledData = record {
        seq = q.state.seq;
        status = cancelled;
        server_time_ms = now;
      } in
      xadd (auction_cancelled e) cancel_script_error
        (λ t. (ok_cancelled e.seq e, publish (auction_cancelled e) t))
        (record q { state = record q.state { status = cancelled } })
