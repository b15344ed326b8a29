-- ===== src/Server/Bid/Http.antt =====
-- POST /api/auctions/{id}/bids, `handlePlaceBidHTTP` of apps/lumen/internal/server/api.go: the lane of
-- BID_PLACE whose answer does not share the socket. Metrics are left out.
use live_auction_system.Prelude.{
  ℕ, Bool, true, false, ◌||◌, Option, none, some, if◌then◌else◌, ltb, ◌==◌,
}
use live_auction_system.Model.Mode.{Mode, default_mode}
use live_auction_system.Engine.Room.{Room}
use live_auction_system.Server.Hub.{HubState, room_state_snap, set_mode}
use live_auction_system.Server.Bid.{
  Conn, BidPlaceData, BidFrame, Evalsha, canonical_amount, max_client_bid_id_len, run_bid, args_of,
  rejected_bad_input,
}

-- The answer: 401, the 400 of a body that is no JSON, or a status and the frame.
pub data HttpBid : Type 0 where
  bid_unauthorized bid_bad_json : HttpBid
  bid_answer : ℕ → BidFrame → HttpBid

unfoldable pub is_cold : Mode → Bool
is_cold default_mode = true
is_cold _ = false

-- The mode for a room, and the cache: where no mode is cached, that of a Snapshot with rules. `snap` is
-- `none` where the read fails or finds no rules.
unfoldable pub resolve_mode : ℕ → Option Mode → HubState → Mode × HubState
unfolding is_cold room_state_snap set_mode
resolve_mode aid none h = ((room_state_snap h aid).mode, h)
resolve_mode aid (some mode) h =
    if is_cold (room_state_snap h aid).mode
    then (mode, set_mode aid mode h)
    else ((room_state_snap h aid).mode, h)

-- The script, on an amount that is valid.
unfoldable pub run_http :
    Conn → BidPlaceData → ℕ → Evalsha → Mode × HubState → Room → HttpBid × (HubState × Room)
unfolding run_bid args_of
run_http c d amount e resolved r =
    let out = run_bid resolved.0 (args_of c d amount) e r in
    (bid_answer 200 out.0, (resolved.1, out.1))

abbrev pub is_bad_token : Conn → BidPlaceData → Bool
is_bad_token c d =
    c.aid == 0 || d.client_bid_id == 0 || ltb max_client_bid_id_len d.client_bid_id_len

-- The body that is JSON, with what `canonicalAmount` makes of its amount.
unfoldable pub place_parsed_http :
    Conn
    → BidPlaceData
    → Option ℕ
    → Option Mode
    → Evalsha
    → HubState
    → Room
    → HttpBid × (HubState × Room)
unfolding resolve_mode run_http
place_parsed_http c d none snap e h r = (bid_answer 400 rejected_bad_input, (h, r))
place_parsed_http c d (some amount) snap e h r =
    if is_bad_token c d
    then (bid_answer 400 rejected_bad_input, (h, r))
    else run_http c d amount e (resolve_mode c.aid snap h) r

-- The display name: what `UserNickname` returns, or the user id where it is empty or the read fails.
unfoldable pub display_of : ℕ → Option ℕ → ℕ
display_of user_id none = user_id
display_of user_id (some nick) = if nick == 0 then user_id else nick

-- The bidder of a request, as the script is called for it.
abbrev pub http_conn : ℕ → ℕ → Option ℕ → Conn
http_conn user_id aid nickname = record {
  aid = aid;
  user_id = user_id;
  display_name = display_of user_id nickname;
}

-- `handlePlaceBidHTTP`, for an auction and its outside: the user, `none` where the token is not valid,
-- the body, `none` where it is no JSON, and what UserNickname returns, `none` where it fails.
unfoldable pub handle_place_bid_http :
    ℕ
    → Option ℕ
    → Option BidPlaceData
    → Option ℕ
    → Option Mode
    → Evalsha
    → HubState
    → Room
    → HttpBid × (HubState × Room)
unfolding canonical_amount place_parsed_http display_of
handle_place_bid_http aid none d nickname snap e h r = (bid_unauthorized, (h, r))
handle_place_bid_http aid (some user) none nickname snap e h r = (bid_bad_json, (h, r))
handle_place_bid_http aid (some user) (some d) nickname snap e h r =
    place_parsed_http (http_conn user aid nickname) d (canonical_amount d.raw_amount) snap e h r
