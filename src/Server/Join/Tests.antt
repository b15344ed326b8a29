-- ===== src/Server/Join/Tests.antt =====
-- Witnesses for the theorems on ROOM_JOIN.
use live_auction_system.Prelude.{ℕ, ◌≡◌, refl, List, [], ◌∷◌, some, arith}
use live_auction_system.Model.Events.{type_bid_accepted}
use live_auction_system.Store.Stream.{StreamEvent}
use live_auction_system.Store.Stream.Emit.{after}
use live_auction_system.Server.Join.{catchup}
use live_auction_system.Server.Join.Catchup.{seqs, catchup-exact}

abbrev event : ℕ → StreamEvent
event n = record { id = n; seq = n; event_type = type_bid_accepted; payload = n }

abbrev stream : List StreamEvent
stream = event 1 ∷ event 2 ∷ event 3 ∷ event 4 ∷ []

-- The fourth event came after the snapshot.
catchup-exact_example : seqs (catchup 1 3 (some (after 1 stream))) ≡ 2 ∷ 3 ∷ []
catchup-exact_example =
    catchup-exact 1 3 stream (refl, (refl, (refl, (refl, tt)))) (omega arith) (omega arith)
      (omega arith)
