-- ===== src/Engine/Trace/WellFormed.antt =====
-- Every reachable room is well formed.
use live_auction_system.Prelude.{Bool, arith}
use live_auction_system.Model.Status.{is_terminal}
use live_auction_system.Engine.Room.{KeyTypes, Room}
use live_auction_system.Engine.Invariant.{IsWellFormed}
use live_auction_system.Engine.PlaceBid.Keeps.{adjudicate-IsWellFormed}
use live_auction_system.Engine.Lifecycle.Keeps.{
  freeze_rules-IsWellFormed, start_auction-IsWellFormed, close_auction-IsWellFormed,
  cancel_auction-IsWellFormed,
}
use live_auction_system.Engine.Trace.{
  Step, bid, freeze, start, close, cancel, pause, expire, Reach, Reach-keeps, empty_room,
}

-- Setting `paused` changes nothing that the invariant reads.
pause-IsWellFormed :
    (p : Bool) (r : Room)
    → IsWellFormed r
    → IsWellFormed (record r { state = record r.state { paused = p } })
pause-IsWellFormed p r w = ground arith

pub Step-IsWellFormed : (r t : Room) → Step r t → IsWellFormed r → IsWellFormed t
Step-IsWellFormed r _ (bid hybrid a now _ _) w = adjudicate-IsWellFormed hybrid a now r w
Step-IsWellFormed r _ (freeze rules seller _ v) w = freeze_rules-IsWellFormed rules seller r v w
Step-IsWellFormed r _ (start duration_ms now _) w = start_auction-IsWellFormed duration_ms now r w
Step-IsWellFormed r _ (close now _) w = close_auction-IsWellFormed now r w
Step-IsWellFormed r _ (cancel caller now _) w = cancel_auction-IsWellFormed caller now r w
Step-IsWellFormed r _ (pause p _) w = pause-IsWellFormed p r w
Step-IsWellFormed r _ (expire user _) w = record {
  numbered = w.numbered;
  counted = w.counted;
  ends_once = w.ends_once;
  settled = w.settled;
  early_empty = w.early_empty;
  never_draft = w.never_draft;
  priced = w.priced;
}

empty_room-IsWellFormed : (types : KeyTypes) → IsWellFormed (empty_room types)
unfolding is_terminal
empty_room-IsWellFormed types = ground arith

-- From no keys at all, after any scripts in any order and at any times: the Stream holds exactly the
-- entries 1 to `seq`, each under its own number, at most its newest entry is terminal, and it is
-- terminal exactly if the status is; before the start there is no event; and once the rules are
-- frozen the price lies between the start price and the cap, below the cap while the auction is
-- open, and the extensions are within their limit.
pub Reach-IsWellFormed : (types : KeyTypes) {r : Room} → Reach (empty_room types) r → IsWellFormed r
Reach-IsWellFormed types =
    Reach-keeps IsWellFormed Step-IsWellFormed (empty_room-IsWellFormed types)
