-- ===== src/Server/Bid/TwoLanes.antt =====
-- BID_PLACE over HTTP and over the socket: `handlePlaceBidHTTP` of apps/lumen/internal/server/api.go and
-- `dispatchWS` of apps/lumen/internal/server/ws.go.
use live_auction_system.Prelude.{
  ℕ, ◌+◌, ◌≤◌, Bool, true, false, not, ◌||◌, Option, none, some, if◌then◌else◌, ◌≡◌, ◌≢◌, refl, sym,
  ap, ◌∙◌, inl, inr, Bool-cases, arith,
}
use live_auction_system.Model.Mode.{
  Mode, default_mode, english, sudden_death, sealed_first, vickrey, hybrid_reveal, all_pay,
  prequalify, unknown_mode, uses_sealed_engine, uses_hybrid_engine,
}
use live_auction_system.Engine.Room.{Room}
use live_auction_system.Engine.Invariant.{IsWellFormed}
use live_auction_system.Engine.PlaceBid.{types_ok}
use live_auction_system.Server.Hub.{RoomState, HubState, room_state_snap, set_mode, is_english}
use live_auction_system.Server.Hub.Ratchet.{IsCached}
use live_auction_system.Server.Bid.{
  Conn, BidPlaceData, BidFrame, BidClock, canonical_amount, run_bid, args_of, rejected_too_low,
  rejected_bad_input, replied, fast_rejects, fast_path_precheck, place_valid_bid, run_script,
  dispatch_bid_place, fast_reject_expiry_margin_ms,
}
use live_auction_system.Server.Bid.FastReject.{fast_reject_agrees}
use live_auction_system.Server.Bid.Http.{
  bid_answer, handle_place_bid_http, place_parsed_http, resolve_mode, run_http, is_cold,
  is_bad_token, display_of,
}

-- The gateway's clock, with Redis in reach.
abbrev pub clock_at : ℕ → ℕ → BidClock
clock_at gateway_now now = record {
  gateway_now_ms = gateway_now;
  precheck_up = true;
  evalsha = replied now;
}

-- The Snapshot read by the HTTP lane selects no script but that of the cache.
unfoldable pub is_settled : Mode → Option Mode → Bool
unfolding is_cold is_english
is_settled cached none = true
is_settled cached (some m) = not (is_cold cached) || is_english m

english_runs :
    (c : Conn) (d : BidPlaceData) (n now : ℕ) (m : Mode) (h : HubState) (r : Room)
    → is_english m ≡ true
    → run_http c d n (replied now) (m, set_mode c.aid m h) r
      ≡ run_http c d n (replied now) (default_mode, h) r
unfolding run_http run_bid run_script set_mode is_english uses_sealed_engine uses_hybrid_engine
english_runs c d n now default_mode h r e = refl
english_runs c d n now english h r e = refl
english_runs c d n now sudden_death h r e = ground (arith, e)
english_runs c d n now sealed_first h r e = ground (arith, e)
english_runs c d n now vickrey h r e = ground (arith, e)
english_runs c d n now hybrid_reveal h r e = ground (arith, e)
english_runs c d n now all_pay h r e = ground (arith, e)
english_runs c d n now prequalify h r e = ground (arith, e)
english_runs c d n now unknown_mode h r e = ground (arith, e)

settled_runs :
    (c : Conn) (d : BidPlaceData) (n now : ℕ) (cached : Mode) (snap : Mode) (h : HubState)
    (r : Room)
    → is_settled cached (some snap) ≡ true
    → run_http c d n
        (replied now)
        (if is_cold cached then (snap, set_mode c.aid snap h) else (cached, h))
        r
      ≡ run_http c d n (replied now) (cached, h) r
unfolding is_settled is_cold
settled_runs c d n now default_mode snap h r e = english_runs c d n now snap h r e
settled_runs c d n now english snap h r e = refl
settled_runs c d n now sudden_death snap h r e = refl
settled_runs c d n now sealed_first snap h r e = refl
settled_runs c d n now vickrey snap h r e = refl
settled_runs c d n now hybrid_reveal snap h r e = refl
settled_runs c d n now all_pay snap h r e = refl
settled_runs c d n now prequalify snap h r e = refl
settled_runs c d n now unknown_mode snap h r e = refl

resolved_runs :
    (c : Conn) (d : BidPlaceData) (n now : ℕ) (snap : Option Mode) (h : HubState) (r : Room)
    → is_settled (room_state_snap h c.aid).mode snap ≡ true
    → run_http c d n (replied now) (resolve_mode c.aid snap h) r
      ≡ run_http c d n (replied now) ((room_state_snap h c.aid).mode, h) r
unfolding resolve_mode
resolved_runs c d n now none h r e = refl
resolved_runs c d n now (some m) h r e =
    settled_runs c d n now (room_state_snap h c.aid).mode m h r e

-- The socket's answer is the script's, also where the fast-reject gives it.
socket_runs :
    (rs : RoomState) (c : Conn) (d : BidPlaceData) (n gateway_now now : ℕ) (r : Room)
    → IsWellFormed r
    → types_ok r ≡ true
    → IsCached r.state.current_price_cents r.state.end_at_ms rs
    → rs.end_at_ms ≢ 0
    → now ≤ gateway_now + fast_reject_expiry_margin_ms
    → place_valid_bid rs c d n (clock_at gateway_now now) r
      ≡ run_bid rs.mode (args_of c d n) (replied now) r
unfolding place_valid_bid
socket_runs rs c d n gateway_now now r w ty ca nz skew =
    elim (Bool-cases
      (fast_rejects rs n gateway_now (some (fast_path_precheck r c.user_id d.client_bid_id)))) [
        | inl e ↦
            ap
              (λ b.
                if b
                then (rejected_too_low, r)
                else run_bid rs.mode (args_of c d n) (replied now) r)
              e
            ∙ sym (fast_reject_agrees rs c d n gateway_now now r w ty ca nz skew e)
        | inr e ↦
            ap
              (λ b.
                if b
                then (rejected_too_low, r)
                else run_bid rs.mode (args_of c d n) (replied now) r)
              e
      ]

http_runs :
    (h : HubState) (c : Conn) (d : BidPlaceData) (nickname : Option ℕ) (snap : Option Mode)
    (n now : ℕ) (r : Room)
    → c.display_name ≡ display_of c.user_id nickname
    → canonical_amount d.raw_amount ≡ some n
    → is_bad_token c d ≡ false
    → is_settled (room_state_snap h c.aid).mode snap ≡ true
    → handle_place_bid_http c.aid (some c.user_id) (some d) nickname snap (replied now) h r ≡ (
      bid_answer 200 (run_bid (room_state_snap h c.aid).mode (args_of c d n) (replied now) r).0,
      (h, (run_bid (room_state_snap h c.aid).mode (args_of c d n) (replied now) r).1),
    )
unfolding handle_place_bid_http place_parsed_http run_http
http_runs h c d nickname snap n now r shown am ok settled =
    ap
      (λ name.
        place_parsed_http (record c { display_name = name }) d (canonical_amount d.raw_amount) snap
          (replied now) h r)
      (sym shown)
    ∙ ap (λ o. place_parsed_http c d o snap (replied now) h r) am
    ∙ ap
        (λ b.
          if b
          then (bid_answer 400 rejected_bad_input, (h, r))
          else run_http c d n (replied now) (resolve_mode c.aid snap h) r)
        ok
    ∙ resolved_runs c d n now snap h r settled

abbrev checked_bid : HubState → Conn → BidPlaceData → BidClock → Room → Option ℕ → BidFrame × Room
checked_bid h c d clock r o = elim o [
  | none ↦ (rejected_bad_input, r)
  | some amount ↦
      if is_bad_token c d
      then (rejected_bad_input, r)
      else place_valid_bid (room_state_snap h c.aid) c d amount clock r
]

socket_valid :
    (h : HubState) (c : Conn) (d : BidPlaceData) (n : ℕ) (clock : BidClock) (r : Room)
    → canonical_amount d.raw_amount ≡ some n
    → is_bad_token c d ≡ false
    → dispatch_bid_place h c d clock r ≡ place_valid_bid (room_state_snap h c.aid) c d n clock r
unfolding dispatch_bid_place
socket_valid h c d n clock r am ok =
    ap (checked_bid h c d clock r) am
    ∙ ap
        (λ b.
          if b
          then (rejected_bad_input, r)
          else place_valid_bid (room_state_snap h c.aid) c d n clock r)
        ok

-- Let the user's nickname be what it was when the user's socket connected. On a well-formed room with
-- right key types, a cache within its price and end that has seen an end, a Snapshot that selects no
-- script but that of the cached mode, and clocks within the margin, a bid with valid input whose
-- script call is answered gets over HTTP status 200 and the frame that the socket would push, leaves
-- the room as the socket's bid would, and leaves the cache as it was.
pub handle_place_bid_http-agrees :
    (h : HubState) (c : Conn) (d : BidPlaceData) (nickname : Option ℕ) (snap : Option Mode)
    (n gateway_now now : ℕ) (r : Room)
    → c.display_name ≡ display_of c.user_id nickname
    → canonical_amount d.raw_amount ≡ some n
    → is_bad_token c d ≡ false
    → is_settled (room_state_snap h c.aid).mode snap ≡ true
    → IsWellFormed r
    → types_ok r ≡ true
    → IsCached r.state.current_price_cents r.state.end_at_ms (room_state_snap h c.aid)
    → (room_state_snap h c.aid).end_at_ms ≢ 0
    → now ≤ gateway_now + fast_reject_expiry_margin_ms
    → handle_place_bid_http c.aid (some c.user_id) (some d) nickname snap (replied now) h r ≡ (
      bid_answer 200 (dispatch_bid_place h c d (clock_at gateway_now now) r).0,
      (h, (dispatch_bid_place h c d (clock_at gateway_now now) r).1),
    )
handle_place_bid_http-agrees h c d nickname snap n gateway_now now r shown am ok settled w ty ca nz
      skew =
    http_runs h c d nickname snap n now r shown am ok settled
    ∙ ap (λ out. (bid_answer 200 out.0, (h, out.1)))
        (sym (socket_runs (room_state_snap h c.aid) c d n gateway_now now r w ty ca nz skew)
          ∙ sym (socket_valid h c d n (clock_at gateway_now now) r am ok))
