-- ===== src/Server/Bid/FastReject.antt =====
-- The gateway's fast-reject against the scripts.
use live_auction_system.Prelude.{
  ℕ, ◌+◌, ◌≤◌, ◌<◌, ◌≡◌, ◌≢◌, refl, Bool, true, false, Option, none, some, arith, not, ◌&&◌, ◌==◌,
}
use live_auction_system.Model.Status.{Status, is_live, is_terminal}
use live_auction_system.Model.Mode.{uses_hybrid_engine, uses_sealed_engine}
use live_auction_system.Engine.Room.{Room, dedupe_get}
use live_auction_system.Engine.Invariant.{IsWellFormed, is_unfrozen}
use live_auction_system.Engine.PlaceBid.{
  BidArgs, BidReply, adjudicate, bid_refusal, state_refusal, amount_refusal, required_price,
  types_ok, err_too_low,
}
use live_auction_system.Server.Hub.{RoomState}
use live_auction_system.Server.Hub.Ratchet.{IsCached}
use live_auction_system.Server.Bid.{
  Conn, BidPlaceData, fast_rejects, fast_path_precheck, args_of, run_bid, run_script,
  frame_of_reply, rejected_too_low, replied, fast_reject_expiry_margin_ms,
}

-- What the test has checked when it rejects.
record IsRejected (rs : RoomState) (n : ℕ) (gateway_now : ℕ) (user : ℕ) (token : ℕ) (r : Room)
    : Type 0 where
  is_open : is_live r.state.status ≡ true
  running : r.state.paused ≡ false
  stranger : (not (r.state.seller_id == 0) && user == r.state.seller_id) ≡ false
  fresh : dedupe_get user token r ≡ none
  below : (c : ℕ) × (rs.price_cents ≡ some c) × (n ≤ c)
  in_window : rs.end_at_ms ≢ 0 → gateway_now + fast_reject_expiry_margin_ms < rs.end_at_ms
  ascending : uses_sealed_engine rs.mode ≡ false

is_rejected :
    (rs : RoomState) (n gateway_now user token : ℕ) (r : Room)
    → fast_rejects rs n gateway_now (some (fast_path_precheck r user token)) ≡ true
    → IsRejected rs n gateway_now user token r
unfolding fast_rejects fast_path_precheck
is_rejected rs n gateway_now user token r h = ground arith

state_passes :
    (rs : RoomState) (a : BidArgs) (n gateway_now now : ℕ) (r : Room)
    → IsRejected rs n gateway_now a.user_id a.client_bid_id r
    → rs.end_at_ms ≤ r.state.end_at_ms
    → rs.end_at_ms ≢ 0
    → now ≤ gateway_now + fast_reject_expiry_margin_ms
    → state_refusal r.state a now ≡ none
unfolding state_refusal
state_passes rs a n gateway_now now r f e nz skew = ground arith

abbrev is_too_low : Option BidReply → Bool
is_too_low (some (err_too_low _ _)) = true
is_too_low _ = false

live_facts : (s : Status) → is_live s ≡ true → (is_unfrozen s ≡ false) × (is_terminal s ≡ false)
unfolding is_live is_terminal
live_facts s h = ground arith

amount_fails :
    (r : Room) (n : ℕ)
    → is_live r.state.status ≡ true
    → IsWellFormed r
    → n ≤ r.state.current_price_cents
    → is_too_low (amount_refusal r.state (some n)) ≡ true
unfolding amount_refusal required_price
amount_fails r n l w h =
    let (early, running) = live_facts r.state.status l in
    let q = w.priced early in ground (arith, q.open_below_cap running, q.positive_step)

refusal_low :
    (r : Room) (a : BidArgs) (now n : ℕ)
    → types_ok r ≡ true
    → a.amount ≡ some n
    → dedupe_get a.user_id a.client_bid_id r ≡ none
    → state_refusal r.state a now ≡ none
    → is_too_low (amount_refusal r.state (some n)) ≡ true
    → is_too_low (bid_refusal r a now) ≡ true
unfolding bid_refusal
refusal_low r a now n ty ha fresh st low = ground arith

adjudicate_low :
    (hybrid : Bool) (r : Room) (a : BidArgs) (now : ℕ)
    → is_too_low (bid_refusal r a now) ≡ true
    → (frame_of_reply (adjudicate hybrid a now r).0 ≡ rejected_too_low)
      × ((adjudicate hybrid a now r).1 ≡ r)
unfolding adjudicate frame_of_reply
adjudicate_low hybrid r a now h = ground arith

price_below :
    (rs : RoomState) (price end n p : ℕ)
    → IsCached price end rs
    → rs.price_cents ≡ some p
    → n ≤ p
    → n ≤ price
price_below rs price end n p c hp le = ground arith

-- The gateway's fast-reject never contradicts the script. Take a well-formed room whose keys have the
-- right types, a cache within the room's price and end that has seen an end, and a Redis clock at most
-- the margin ahead of the gateway's. Whenever the fast-reject test passes, the script that the cached
-- mode selects answers the same bid with ERR_TOO_LOW and leaves the room as it is, so that the handler
-- gives the same answer as the script.
pub fast_reject_agrees :
    (rs : RoomState) (c : Conn) (d : BidPlaceData) (n gateway_now now : ℕ) (r : Room)
    → IsWellFormed r
    → types_ok r ≡ true
    → IsCached r.state.current_price_cents r.state.end_at_ms rs
    → rs.end_at_ms ≢ 0
    → now ≤ gateway_now + fast_reject_expiry_margin_ms
    → fast_rejects rs n gateway_now (some (fast_path_precheck r c.user_id d.client_bid_id)) ≡ true
    → run_bid rs.mode (args_of c d n) (replied now) r ≡ (rejected_too_low, r)
unfolding run_bid run_script args_of
fast_reject_agrees rs c d n gateway_now now r w ty cached nz skew h =
    let a = args_of c d n in
    let f = is_rejected rs n gateway_now a.user_id a.client_bid_id r h in
    let (p, hp, le) = f.below in
    let low =
      amount_fails r n f.is_open w
        (price_below rs r.state.current_price_cents r.state.end_at_ms n p cached hp le) in
    let st = state_passes rs a n gateway_now now r f cached.end_within nz skew in
    let (e, k) =
      adjudicate_low (uses_hybrid_engine rs.mode) r a now
        (refusal_low r a now n ty refl f.fresh st low) in
    ground (arith, f.ascending, e, k)
