-- ===== src/Engine/Trace/Concluded.antt =====
-- A terminal status and the event that ended the auction.
use live_auction_system.Prelude.{
  ℕ, ◌≡◌, Bool, true, Option, none, some, List, [], ◌∷◌, arith, inl, inr, Bool-cases,
}
use live_auction_system.Model.Status.{Status, sold, no_bid, cancelled, is_terminal}
use live_auction_system.Model.Events.{
  Event, event_seq, auction_sold, auction_no_bid, auction_cancelled,
}
use live_auction_system.Engine.Room.{KeyTypes, Room, Entry}
use live_auction_system.Engine.Invariant.{IsWellFormed}
use live_auction_system.Engine.PlaceBid.{BidArgs, adjudicate, accept_bid}
use live_auction_system.Engine.PlaceBid.Admission.{IsAdmissible, adjudicate_accepts}
use live_auction_system.Model.Rules.{Rules}
use live_auction_system.Engine.PlaceBid.Outcome.{
  is_acceptance, place_bid_accepts_iff, adjudicate_refuses,
}
use live_auction_system.Engine.Lifecycle.{
  freeze_rules, start_auction, close_auction, cancel_auction,
}
use live_auction_system.Engine.Trace.{
  Step, bid, freeze, start, close, cancel, pause, expire, Reach, Reach-keeps, empty_room,
}
use live_auction_system.Engine.Trace.WellFormed.{Reach-IsWellFormed}

-- The status that an event announces as the end.
unfoldable pub announced : Event → Option Status
announced (auction_sold _) = some sold
announced (auction_no_bid _) = some no_bid
announced (auction_cancelled _) = some cancelled
announced _ = none

unfoldable pub concluded : List Entry → Option Status
unfolding announced
concluded [] = none
concluded (e ∷ _) = announced e.event

unfoldable pub IsConcluded : Room → Type 0
unfolding is_terminal concluded
IsConcluded r = is_terminal r.state.status ≡ true → concluded r.stream ≡ some r.state.status

freeze-IsConcluded :
    (rules : Rules) (seller : ℕ) (r : Room)
    → IsConcluded r
    → IsConcluded (freeze_rules rules seller r).1
unfolding IsConcluded freeze_rules is_terminal
freeze-IsConcluded rules seller r h t = ground (arith, h, t)

start-IsConcluded :
    (duration_ms now : ℕ) (r : Room)
    → IsConcluded r
    → IsConcluded (start_auction duration_ms now r).1
unfolding IsConcluded start_auction is_terminal
start-IsConcluded duration_ms now r h t = ground (arith, h, t)

close-IsConcluded : (now : ℕ) (r : Room) → IsConcluded r → IsConcluded (close_auction now r).1
unfolding IsConcluded close_auction is_terminal concluded announced event_seq
close-IsConcluded now r h t = ground (arith, h, t)

cancel-IsConcluded :
    (caller now : ℕ) (r : Room) → IsConcluded r → IsConcluded (cancel_auction caller now r).1
unfolding IsConcluded cancel_auction is_terminal concluded announced event_seq
cancel-IsConcluded caller now r h t = ground (arith, h, t)

accept-IsConcluded :
    (hybrid : Bool) (a : BidArgs) (n now : ℕ) (r : Room)
    → IsAdmissible r a n now
    → IsConcluded (accept_bid hybrid a n now r).1
unfolding IsConcluded accept_bid is_terminal concluded announced event_seq
accept-IsConcluded hybrid a n now r ok t = ground (arith, t, ok.open_now.is_live_now)

bid-IsConcluded :
    (hybrid : Bool) (a : BidArgs) (now : ℕ) (r : Room)
    → IsConcluded r
    → IsConcluded (adjudicate hybrid a now r).1
bid-IsConcluded hybrid a now r h = elim (Bool-cases (is_acceptance (adjudicate hybrid a now r).0)) [
  | inl taken ↦
      let (n, ok) = (place_bid_accepts_iff hybrid a now r).0 taken in
      rw (adjudicate_accepts hybrid a n now r ok) (accept-IsConcluded hybrid a n now r ok)
  | inr refused ↦ rw (adjudicate_refuses hybrid a now r refused) h
]

Step-IsConcluded : (r t : Room) → Step r t → IsConcluded r → IsConcluded t
unfolding IsConcluded
Step-IsConcluded r _ (bid hybrid a now _ named) h = bid-IsConcluded hybrid a now r h
Step-IsConcluded r _ (freeze rules seller _ v) h = freeze-IsConcluded rules seller r h
Step-IsConcluded r _ (start duration_ms now _) h = start-IsConcluded duration_ms now r h
Step-IsConcluded r _ (close now _) h = close-IsConcluded now r h
Step-IsConcluded r _ (cancel caller now _) h = cancel-IsConcluded caller now r h
Step-IsConcluded r _ (pause p _) h = h
Step-IsConcluded r _ (expire user _) h = h

empty-IsConcluded : (types : KeyTypes) → IsConcluded (empty_room types)
unfolding IsConcluded is_terminal
empty-IsConcluded types h = absurd (ground (arith, h))

-- From no keys at all, after any runs of place_bid.lua and place_bid_hybrid.lua by bidders with a user
-- id, and of the scripts that freeze valid rules, start, close and cancel, with pauses and expiring
-- dedupe Hashes, in any order and at any times: the Stream holds exactly the entries 1 to `seq`, each
-- under its own number; at most its newest entry is terminal; the status is terminal exactly if that
-- entry is, and is then the status that the entry announces; before the start there is no event; and
-- once the rules are frozen the price lies between the start price and the cap, below the cap while
-- the auction is open, and the extensions are within their limit.
pub Reach-IsConcluded :
    (types : KeyTypes) {r : Room} → Reach (empty_room types) r → IsWellFormed r × IsConcluded r
Reach-IsConcluded types reached = (
  Reach-IsWellFormed types reached,
  Reach-keeps IsConcluded Step-IsConcluded (empty-IsConcluded types) reached,
)
