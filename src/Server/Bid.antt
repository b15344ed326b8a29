-- ===== src/Server/Bid.antt =====
-- BID_PLACE at the gateway: `dispatchWS` of apps/lumen/internal/server/ws.go with
-- `FastPathPrecheck` of apps/lumen/internal/store/store.go. A raw amount is what ParseInt makes of
-- the string, `none` where it fails.
pub mod FastReject
pub mod Http
pub mod TwoLanes
mod Tests
use live_auction_system.Prelude.{
  ℕ, ◌+◌, Bool, true, false, ◌&&◌, ◌||◌, not, Option, none, some, if◌then◌else◌, ltb, leb, ◌==◌,
}
use live_auction_system.Prelude.Int.{ℤ, pos, negsuc, pos_part, ltb_ℤ, leb_ℤ}
use live_auction_system.Model.Status.{Status, live, is_live}
use live_auction_system.Model.Mode.{Mode, uses_sealed_engine, uses_hybrid_engine}
use live_auction_system.Model.Rules.{max_money_cents}
use live_auction_system.Model.Events.{BidAcceptedData}
use live_auction_system.Engine.Room.{Room, dedupe_get}
use live_auction_system.Engine.PlaceBid.{
  BidArgs, BidReply, adjudicate, ok_accepted, ok_extended, ok_sold, duplicate, err_not_live,
  err_after_end, err_too_low, err_not_allowed, err_auction_paused, err_key_type,
  err_seq_stream_mismatch, script_error,
}
use live_auction_system.Engine.Sealed.{place_bid_sealed}
use live_auction_system.Server.Hub.{RoomState, HubState, room_state_snap}

-- `canonicalAmount`
unfoldable pub canonical_amount : Option ℤ → Option ℕ
canonical_amount none = none
canonical_amount (some n) =
    if leb_ℤ n (pos 0) || ltb_ℤ (pos max_money_cents) n then none else some (pos_part n)

-- `FastPathState`
pub record FastPathState : Type 0 where
  pub is_live_state : Bool
  pub is_paused : Bool
  pub is_seller_self_bid : Bool
  pub is_dupe : Bool

abbrev pub is_some {ℓ} : {A : Type ℓ} → Option A → Bool
is_some none = false
is_some (some _) = true

-- `FastPathPrecheck`; the Redis read that fails is left to the caller.
unfoldable pub fast_path_precheck : Room → ℕ → ℕ → FastPathState
unfolding is_live dedupe_get
fast_path_precheck r user_id client_bid_id = record {
  is_live_state = is_live r.state.status;
  is_paused = r.state.paused;
  is_seller_self_bid = not (r.state.seller_id == 0) && r.state.seller_id == user_id;
  is_dupe = is_some (dedupe_get user_id client_bid_id r);
}

-- `fastRejectExpiryMarginMs`
abbrev pub fast_reject_expiry_margin_ms : ℕ
fast_reject_expiry_margin_ms = 1000

abbrev below_cached : Option ℕ → ℕ → Bool
below_cached none amount = false
below_cached (some cached) amount = leb amount cached

-- The fast-reject test of `dispatchWS`. `fp` is `none` where FastPathPrecheck fails.
unfoldable pub fast_rejects : RoomState → ℕ → ℕ → Option FastPathState → Bool
unfolding uses_sealed_engine
fast_rejects rs amount now_ms none = false
fast_rejects rs amount now_ms (some fp) =
    not (uses_sealed_engine rs.mode)
    && not rs.terminal
    && below_cached rs.price_cents amount
    && (rs.end_at_ms == 0 || ltb (now_ms + fast_reject_expiry_margin_ms) rs.end_at_ms)
    && fp.is_live_state
    && not fp.is_paused
    && not fp.is_seller_self_bid
    && not fp.is_dupe

-- The codes that the gateway pushes to the bidder, or the ack.
pub data BidFrame : Type 0 where
  bid_accepted_frame : BidAcceptedData → BidFrame
  rejected_bad_input rejected_too_low rejected_not_live rejected_after_end : BidFrame
  rejected_not_allowed rejected_paused rejected_internal : BidFrame

-- The `switch code` of `dispatchWS`; an error that EVALSHA raises is ERR_AUCTION_PAUSED, by
-- `bidErrCode`.
unfoldable pub frame_of_reply : BidReply → BidFrame
frame_of_reply (ok_accepted _ ack) = bid_accepted_frame ack
frame_of_reply (ok_extended _ ack _ _) = bid_accepted_frame ack
frame_of_reply (ok_sold _ ack _ _) = bid_accepted_frame ack
frame_of_reply (duplicate ack) = bid_accepted_frame ack
frame_of_reply (err_not_live _) = rejected_not_live
frame_of_reply (err_after_end _ _) = rejected_after_end
frame_of_reply (err_too_low _ _) = rejected_too_low
frame_of_reply err_not_allowed = rejected_not_allowed
frame_of_reply err_auction_paused = rejected_paused
frame_of_reply err_key_type = rejected_internal
frame_of_reply err_seq_stream_mismatch = rejected_internal
frame_of_reply script_error = rejected_paused

-- The fields of `Conn` that the bid path reads.
pub record Conn : Type 0 where
  pub aid : ℕ
  pub user_id : ℕ
  pub display_name : ℕ

-- `BidPlaceData` with the length of the token.
pub record BidPlaceData : Type 0 where
  pub client_bid_id : ℕ
  pub client_bid_id_len : ℕ
  pub raw_amount : Option ℤ

-- How an EVALSHA goes, with Redis TIME where the script runs: its reply may be lost on the way back, it
-- may not reach Redis, or the script cache may have been flushed.
pub data Evalsha : Type 0 where
  replied reply_lost : ℕ → Evalsha
  unreachable noscript : Evalsha

-- What the environment does while one bid is handled: the gateway's clock, whether FastPathPrecheck
-- reaches Redis, and how the EVALSHA goes.
pub record BidClock : Type 0 where
  pub gateway_now_ms : ℕ
  pub precheck_up : Bool
  pub evalsha : Evalsha

-- `maxClientBidIDLen`
abbrev pub max_client_bid_id_len : ℕ
max_client_bid_id_len = 128

-- The script that the cached mode selects.
unfoldable pub run_script : Mode → BidArgs → ℕ → Room → BidReply × Room
unfolding uses_sealed_engine uses_hybrid_engine place_bid_sealed adjudicate
run_script mode a now r =
    if uses_sealed_engine mode
    then place_bid_sealed a now r
    else adjudicate (uses_hybrid_engine mode) a now r

-- The EVALSHA and the frame for its reply, or for its error by `bidErrCode`.
unfoldable pub run_bid : Mode → BidArgs → Evalsha → Room → BidFrame × Room
unfolding run_script frame_of_reply
run_bid mode a unreachable r = (rejected_paused, r)
run_bid mode a noscript r = (rejected_internal, r)
run_bid mode a (reply_lost now) r = (rejected_paused, (run_script mode a now r).1)
run_bid mode a (replied now) r = let out = run_script mode a now r in (frame_of_reply out.0, out.1)

unfoldable pub args_of : Conn → BidPlaceData → ℕ → BidArgs
args_of c d amount = record {
  user_id = c.user_id;
  client_bid_id = d.client_bid_id;
  amount = some amount;
  display_name = c.display_name;
}

abbrev precheck : Bool → Room → ℕ → ℕ → Option FastPathState
precheck up r user_id client_bid_id =
    if up then some (fast_path_precheck r user_id client_bid_id) else none

-- BID_PLACE after the amount is checked.
unfoldable pub place_valid_bid :
    RoomState → Conn → BidPlaceData → ℕ → BidClock → Room → BidFrame × Room
unfolding fast_rejects fast_path_precheck run_bid args_of
place_valid_bid rs c d amount clock r =
    if fast_rejects rs amount clock.gateway_now_ms
      (precheck clock.precheck_up r c.user_id d.client_bid_id)
    then (rejected_too_low, r)
    else run_bid rs.mode (args_of c d amount) clock.evalsha r

-- BID_PLACE
unfoldable pub dispatch_bid_place :
    HubState → Conn → BidPlaceData → BidClock → Room → BidFrame × Room
unfolding canonical_amount place_valid_bid room_state_snap
dispatch_bid_place h c d clock r = elim (canonical_amount d.raw_amount) [
  | none ↦ (rejected_bad_input, r)
  | some amount ↦
      if c.aid == 0 || d.client_bid_id == 0 || ltb max_client_bid_id_len d.client_bid_id_len
      then (rejected_bad_input, r)
      else place_valid_bid (room_state_snap h c.aid) c d amount clock r
]
