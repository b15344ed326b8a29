-- ===== src/Server/Bid/Tests.antt =====
-- Witnesses for the theorems on the gateway's bid path.
use live_auction_system.Prelude.{◌≡◌, none, [], refl, some, false, arith}
use live_auction_system.Prelude.Int.{pos}
use live_auction_system.Prelude.Assoc.{lookup, insert}
use live_auction_system.Model.Mode.{english}
use live_auction_system.Engine.PlaceBid.Samples.{fresh_room, fresh_room-IsWellFormed}
use live_auction_system.Server.Hub.{RoomState, HubState, room_state_snap}
use live_auction_system.Server.Bid.{
  Conn, BidPlaceData, args_of, run_bid, rejected_too_low, replied, canonical_amount,
  dispatch_bid_place, place_valid_bid, fast_rejects, fast_path_precheck,
}
use live_auction_system.Server.Bid.FastReject.{fast_reject_agrees}
use live_auction_system.Server.Bid.Http.{HttpBid, bid_answer, handle_place_bid_http, display_of}
use live_auction_system.Server.Bid.TwoLanes.{handle_place_bid_http-agrees, is_settled}

abbrev cache : RoomState
cache = record { price_cents = some 100; end_at_ms = 60000; terminal = false; mode = english }

abbrev conn : Conn
conn = record { aid = 3; user_id = 1; display_name = 1 }

abbrev low_bid : BidPlaceData
low_bid = record { client_bid_id = 7; client_bid_id_len = 8; raw_amount = some (pos 90) }

fast_reject_agrees_example :
    run_bid english (args_of conn low_bid 90) (replied 1500) fresh_room
    ≡ (rejected_too_low, fresh_room)
unfolding fast_rejects fast_path_precheck lookup
fast_reject_agrees_example =
    fast_reject_agrees cache conn low_bid 90 1000 1500 fresh_room fresh_room-IsWellFormed refl
      (record { price_within = omega arith; end_within = omega arith }) (omega arith) (omega arith)
      refl

abbrev cached : HubState
cached = insert 3 cache []

abbrev answered : HttpBid
answered = bid_answer 200 rejected_too_low

handle_place_bid_http-agrees_example :
    handle_place_bid_http 3
      (some 1)
      (some low_bid)
      none
      (some english)
      (replied 1500)
      cached
      fresh_room
    ≡ (answered, (cached, fresh_room))
unfolding insert room_state_snap lookup canonical_amount is_settled dispatch_bid_place
    place_valid_bid fast_rejects fast_path_precheck display_of
handle_place_bid_http-agrees_example =
    handle_place_bid_http-agrees cached conn low_bid none (some english) 90 1000 1500 fresh_room
      refl refl refl refl fresh_room-IsWellFormed refl
      (record { price_within = omega arith; end_within = omega arith }) (omega arith) (omega arith)
