-- ===== src/Server/Hub/Tests.antt =====
-- Witnesses for the theorems on the cache.
use live_auction_system.Prelude.{◌≡◌, refl, List, [], ◌∷◌, some, arith, ℕ}
use live_auction_system.Prelude.Assoc.{lookup, insert}
use live_auction_system.Model.Status.{live}
use live_auction_system.Model.Events.{bid_accepted}
use live_auction_system.Server.Hub.{Wire, decoded, observe, room_state_snap}
use live_auction_system.Server.Hub.Ratchet.{IsCached}
use live_auction_system.Server.Hub.Rising.{IsAbove, AllCarried, any_forgets, observe-IsAbove}

abbrev bid_wire : ℕ → ℕ → Wire
bid_wire seq amount = decoded (
    bid_accepted (record {
      seq = seq;
      user_id = 1;
      display_name = 1;
      amount_cents = amount;
      end_at_ms = 60000;
      status = live;
      bid_count = seq;
      server_time_ms = 1000;
    }))

-- A replayed bid does not lower the price.
abbrev wires : List Wire
wires = bid_wire 1 110 ∷ bid_wire 2 120 ∷ bid_wire 1 110 ∷ []

replay : (room_state_snap (observe 7 wires []) 7).price_cents ≡ some 120
unfolding observe lookup insert
replay = refl

observe-IsAbove_example :
    IsAbove (room_state_snap [] 7) (room_state_snap (observe 7 wires []) 7)
    × (AllCarried wires (room_state_snap (observe 7 wires []) 7)
        × IsCached 120 60000 (room_state_snap (observe 7 wires []) 7))
unfolding room_state_snap lookup any_forgets
observe-IsAbove_example =
    observe-IsAbove 7 refl wires [] 120 60000 refl
      ((omega arith, omega arith), ((omega arith, omega arith), ((omega arith, omega arith), tt)))
      (record { price_within = tt; end_within = omega arith })
