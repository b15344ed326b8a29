-- ===== src/Engine/PlaceBid/Tests.antt =====
-- Bids on a fresh room.
use live_auction_system.Prelude.{ℕ, ◌≡◌, ◌↔◌, refl, true, false, arith}
use live_auction_system.Prelude.Assoc.{lookup, insert}
use live_auction_system.Model.Status.{sold}
use live_auction_system.Engine.Room.{dedupe_get}
use live_auction_system.Engine.PlaceBid.{
  place_bid, adjudicate, bid_refusal, state_refusal, amount_refusal, accept_bid, err_too_low,
  required_price,
}
use live_auction_system.Engine.PlaceBid.Admission.{IsAdmissible}
use live_auction_system.Engine.PlaceBid.Outcome.{
  is_acceptance, IsAccepted, adjudicate_refuses, place_bid_accepts_iff, place_bid_effect,
}
use live_auction_system.Engine.PlaceBid.Samples.{fresh_room, bid_of, fresh_room-IsWellFormed}

too_low : (place_bid (bid_of 1 7 105) 1000 fresh_room).0 ≡ err_too_low 105 110
unfolding place_bid lookup
too_low = refl

late_bid : (place_bid (bid_of 1 7 110) 55000 fresh_room).1.state.end_at_ms ≡ 75000
unfolding place_bid lookup insert
late_bid = refl

cap_bid : (place_bid (bid_of 1 7 500) 55000 fresh_room).1.state.status ≡ sold
unfolding place_bid lookup insert
cap_bid = refl

cap_bid_seq : (place_bid (bid_of 1 7 500) 55000 fresh_room).1.state.seq ≡ 2
unfolding place_bid lookup insert
cap_bid_seq = refl

place_bid_accepts_iff_example :
    (is_acceptance (adjudicate false (bid_of 1 7 110) 1000 fresh_room).0 ≡ true)
    ↔ ((n : ℕ) × IsAdmissible fresh_room (bid_of 1 7 110) n 1000)
place_bid_accepts_iff_example = place_bid_accepts_iff false (bid_of 1 7 110) 1000 fresh_room

first_bid-IsAdmissible : IsAdmissible fresh_room (bid_of 1 7 110) 110 1000
unfolding required_price dedupe_get lookup
first_bid-IsAdmissible = ground arith

place_bid_effect_example :
    IsAccepted false
      (bid_of 1 7 110)
      110
      1000
      fresh_room
      (adjudicate false (bid_of 1 7 110) 1000 fresh_room).1
place_bid_effect_example =
    place_bid_effect false (bid_of 1 7 110) 110 1000 fresh_room fresh_room-IsWellFormed
      first_bid-IsAdmissible

adjudicate_refuses_example : (adjudicate false (bid_of 1 7 105) 1000 fresh_room).1 ≡ fresh_room
unfolding adjudicate bid_refusal state_refusal amount_refusal accept_bid dedupe_get lookup
adjudicate_refuses_example = adjudicate_refuses false (bid_of 1 7 105) 1000 fresh_room refl
