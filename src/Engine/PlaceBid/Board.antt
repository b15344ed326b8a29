-- ===== src/Engine/PlaceBid/Board.antt =====
-- What an accepted bid writes on the leaderboard.
use live_auction_system.Prelude.{ℕ, ◌<◌, ◌≡◌, Bool, inl, inr, some, arith, Option-cases}
use live_auction_system.Prelude.Assoc.{Assoc, lookup, insert}
use live_auction_system.Model.Events.{event_seq}
use live_auction_system.Engine.Room.{Room, raise_score}
use live_auction_system.Engine.PlaceBid.{BidArgs, accept_bid}
use live_auction_system.Engine.PlaceBid.Admission.{IsAdmissible}

-- A score above every score of the board is stored.
pub raise_score_above :
    (user n : ℕ) (board : Assoc ℕ)
    → ((v : ℕ) → lookup user board ≡ some v → v < n)
    → raise_score user n board ≡ insert user n board
unfolding raise_score
raise_score_above user n board h = elim (Option-cases (lookup user board)) [
  | inl absent ↦ ground arith
  | inr (v, e) ↦ ground (arith, h v)
]

pub accept_bid_board :
    (hybrid : Bool) (a : BidArgs) (n now : ℕ) (r : Room)
    → IsAdmissible r a n now
    → (accept_bid hybrid a n now r).1.leaderboard ≡ raise_score a.user_id n r.leaderboard
unfolding accept_bid event_seq
accept_bid_board hybrid a n now r h = ground arith
