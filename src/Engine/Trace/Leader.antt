-- ===== src/Engine/Trace/Leader.antt =====
-- The leader of an ascending auction: the winner's score is the price and the highest score.
use live_auction_system.Prelude.{
  ℕ, ◌≤◌, ◌≡◌, ◌≢◌, ◌⊎◌, ◌∙◌, Bool, true, some, [], arith, refl, inl, inr, Bool-cases,
}
use live_auction_system.Prelude.Assoc.{delete, lookup, insert, lookup-insert}
use live_auction_system.Model.Rules.{Rules}
use live_auction_system.Engine.Room.{KeyTypes, Room}
use live_auction_system.Engine.Invariant.{IsWellFormed, is_unfrozen}
use live_auction_system.Engine.PlaceBid.{BidArgs, adjudicate}
use live_auction_system.Engine.PlaceBid.Admission.{IsAdmissible, adjudicate_accepts}
use live_auction_system.Engine.PlaceBid.Board.{raise_score_above, accept_bid_board}
use live_auction_system.Engine.PlaceBid.Outcome.{
  is_acceptance, place_bid_effect, place_bid_accepts_iff, adjudicate_refuses,
}
use live_auction_system.Engine.Lifecycle.{
  freeze_rules, start_auction, close_auction, cancel_auction,
}
use live_auction_system.Engine.Trace.{
  Step, bid, freeze, start, close, cancel, pause, expire, Reach, here, next, empty_room,
}
use live_auction_system.Engine.Trace.WellFormed.{Reach-IsWellFormed}

pub record IsLed (r : Room) : Type 0 where
  pub highest : (u v : ℕ) → lookup u r.leaderboard ≡ some v → v ≤ r.state.current_price_cents
  pub leader :
      r.state.winner_id ≢ 0
      → lookup r.state.winner_id r.leaderboard ≡ some r.state.current_price_cents
  pub nobody : r.state.winner_id ≡ 0 → r.leaderboard ≡ []
  pub unfrozen_nobody : is_unfrozen r.state.status ≡ true → r.state.winner_id ≡ 0

module _ (hybrid : Bool) (a : BidArgs) (now : ℕ) (r : Room) (named : a.user_id ≢ 0) where
  accepted-IsLed :
      (n : ℕ)
      → IsAdmissible r a n now
      → IsWellFormed r
      → IsLed r
      → IsLed (adjudicate hybrid a now r).1
  accepted-IsLed n ok w h =
      let e = place_bid_effect hybrid a n now r w ok in
      let board : (adjudicate hybrid a now r).1.leaderboard ≡ insert a.user_id n r.leaderboard =
        rw (adjudicate_accepts hybrid a n now r ok, accept_bid_board hybrid a n now r ok)
          (raise_score_above a.user_id n r.leaderboard
            (λ v p. omega (arith, h.highest a.user_id v p, e.raised))) in
      record {
        highest = λ u v.
            rw (board, e.price, lookup-insert) (λ p. ground (arith, h.highest u v, e.raised));
        leader = λ _. rw (board, e.leader, e.price, lookup-insert) (ground arith);
        nobody = λ none_yet. ground (arith, e.leader);
        unfrozen_nobody = λ early. ground (arith, e.else_live);
      }

  bid-IsLed : IsWellFormed r → IsLed r → IsLed (adjudicate hybrid a now r).1
  bid-IsLed w h = elim (Bool-cases (is_acceptance (adjudicate hybrid a now r).0)) [
    | inl yes_taken ↦
        let (n, ok) = (place_bid_accepts_iff hybrid a now r).0 yes_taken in accepted-IsLed n ok w h
    | inr refused ↦ rw (adjudicate_refuses hybrid a now r refused) h
  ]

-- A script that leaves the board, the price and the winner alone.
keep-IsLed :
    (r t : Room)
    → t.leaderboard ≡ r.leaderboard
    → t.state.current_price_cents ≡ r.state.current_price_cents
    → t.state.winner_id ≡ r.state.winner_id
    → (is_unfrozen t.state.status ≡ true → is_unfrozen r.state.status ≡ true)
    → IsLed r
    → IsLed t
keep-IsLed r t board price winner early h = record {
  highest = λ u v. rw (board, price) (h.highest u v);
  leader = rw (winner, board, price) h.leader;
  nobody = rw (winner, board) h.nobody;
  unfrozen_nobody = λ e. rw winner (h.unfrozen_nobody (early e));
}

-- Without a winner and scores the claim is empty.
nobody-IsLed : (t : Room) → t.leaderboard ≡ [] → t.state.winner_id ≡ 0 → IsLed t
unfolding lookup
nobody-IsLed t board winner = record {
  highest = λ u v. rw board (λ e. cc);
  leader = λ someone. absurd (someone winner);
  nobody = λ _. board;
  unfrozen_nobody = λ _. winner;
}

freeze-cases :
    (rules : Rules) (seller : ℕ) (r : Room)
    → ((freeze_rules rules seller r).1 ≡ r)
      ⊎ ((is_unfrozen r.state.status ≡ true)
          × ((freeze_rules rules seller r).1.leaderboard ≡ r.leaderboard)
          × ((freeze_rules rules seller r).1.state.winner_id ≡ 0))
unfolding freeze_rules
freeze-cases rules seller r = ground arith

freeze-IsLed :
    (rules : Rules) (seller : ℕ) (r : Room) → IsLed r → IsLed (freeze_rules rules seller r).1
freeze-IsLed rules seller r h = elim (freeze-cases rules seller r) [
  | inl same ↦ rw same h
  | inr (early, board, winner) ↦
      nobody-IsLed (freeze_rules rules seller r).1 (board ∙ h.nobody (h.unfrozen_nobody early))
        winner
]

Step-IsLed : (r t : Room) → Step r t → IsWellFormed r → IsLed r → IsLed t
unfolding start_auction close_auction cancel_auction
Step-IsLed r _ (bid hybrid a now _ named) w h = bid-IsLed hybrid a now r named w h
Step-IsLed r _ (freeze rules seller _ v) w h = freeze-IsLed rules seller r h
Step-IsLed r t (start duration_ms now _) w h =
    keep-IsLed r (start_auction duration_ms now r).1 (ground arith) (ground arith) (ground arith)
      (λ e. ground arith) h
Step-IsLed r t (close now _) w h =
    keep-IsLed r (close_auction now r).1 (ground arith) (ground arith) (ground arith)
      (λ e. ground arith) h
Step-IsLed r t (cancel caller now _) w h =
    keep-IsLed r (cancel_auction caller now r).1 (ground arith) (ground arith) (ground arith)
      (λ e. ground arith) h
Step-IsLed r _ (pause p _) w h =
    keep-IsLed r (record r { state = record r.state { paused = p } }) refl refl refl (λ e. e) h
Step-IsLed r _ (expire user _) w h =
    keep-IsLed r (record r { dedupe = delete user r.dedupe }) refl refl refl (λ e. e) h

empty_room-IsLed : (types : KeyTypes) → IsLed (empty_room types)
unfolding lookup
empty_room-IsLed types = record {
  highest = λ u v e. cc;
  leader = λ someone. absurd (someone refl);
  nobody = λ _. refl;
  unfrozen_nobody = λ _. refl;
}

-- In every room that place_bid.lua and place_bid_hybrid.lua by bidders with a user id, and the scripts
-- that freeze valid rules, start, close and cancel, reach from no keys, no user's score on the
-- leaderboard exceeds the price; the winner, once there is one, has the price as score; and without a
-- winner the board is empty.
pub Reach-IsLed : (types : KeyTypes) {r : Room} → Reach (empty_room types) r → IsLed r
Reach-IsLed types here = empty_room-IsLed types
Reach-IsLed types (next {s = s} {t = t} reached step) =
    Step-IsLed s t step (Reach-IsWellFormed types reached) (Reach-IsLed types reached)
