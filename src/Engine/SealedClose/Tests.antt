-- ===== src/Engine/SealedClose/Tests.antt =====
-- A Vickrey auction of two bids, with an insertion sort for ZREVRANGE.
use live_auction_system.Prelude.{
  ℕ, ◌+◌, ◌≤◌, ◌≡◌, ◌⊎◌, refl, List, [], ◌∷◌, arith, if◌then◌else◌, ltb,
}
use live_auction_system.Prelude.Assoc.{Assoc, lookup, insert}
use live_auction_system.Model.Status.{is_live}
use live_auction_system.Model.Mode.{vickrey}
use live_auction_system.Engine.Room.{Room, dedupe_get, raise_score}
use live_auction_system.Engine.PlaceBid.{BidArgs, state_refusal}
use live_auction_system.Engine.Sealed.{place_bid_sealed}
use live_auction_system.Engine.PlaceBid.Samples.{fresh_room, fresh_state, bid_of}
use live_auction_system.Engine.SealedClose.{
  close_auction_sealed, close_auction_all_pay, second_price,
}
use live_auction_system.Engine.SealedClose.Ranking.{IsRanking}
use live_auction_system.Engine.SealedClose.Bids.{sealed_run, IsSealedRoom}
use live_auction_system.Engine.SealedClose.Hammer.{IsDue, IsSold}
use live_auction_system.Engine.SealedClose.Sale.{
  IsHighest, IsPriced, IsSecond, IsAlone, IsForfeited, IsSoldAlone, close_auction_sealed_sells,
  close_auction_all_pay_sells,
}
use live_auction_system.Engine.SealedClose.Auction.{sealed_auction_bounded}

abbrev insert_ranked : ℕ → ℕ → Assoc ℕ → Assoc ℕ
insert_ranked u v [] = (u, v) ∷ []
insert_ranked u v ((w, x) ∷ z) =
    let rest = insert_ranked u v z in if ltb x v then (u, v) ∷ (w, x) ∷ z else (w, x) ∷ rest

abbrev zrevrange : Assoc ℕ → Assoc ℕ
zrevrange [] = []
zrevrange ((u, v) ∷ z) = insert_ranked u v (zrevrange z)

abbrev room : Room
room = record fresh_room { state = record fresh_state { mode = vickrey } }

abbrev bids : List (BidArgs × ℕ)
bids = (bid_of 1 1 200, 1000) ∷ (bid_of 2 1 300, 2000) ∷ []

abbrev two_bids : Room
two_bids = record room { sealed_bids = (1, 200) ∷ (2, 300) ∷ [] }

bids_placed : (sealed_run bids room).sealed_bids ≡ two_bids.sealed_bids
unfolding sealed_run place_bid_sealed state_refusal dedupe_get raise_score lookup insert
bids_placed = refl

two_bids-IsRanking : IsRanking (zrevrange two_bids.sealed_bids) two_bids.sealed_bids
unfolding lookup
two_bids-IsRanking = ((λ u. ground arith), (300, ground arith))

two_bids-IsDue : IsDue 60000 two_bids
unfolding is_live
two_bids-IsDue = ground arith

close_auction_sealed_sells_example :
    (winner : ℕ) × (top : ℕ) × (price : ℕ) × IsHighest two_bids.sealed_bids winner top
    × IsPriced second_price 100 two_bids.sealed_bids winner top price
    × IsSold winner price 60000 2 (close_auction_sealed zrevrange second_price 60000 two_bids)
unfolding lookup
close_auction_sealed_sells_example =
    close_auction_sealed_sells zrevrange 60000 two_bids two_bids-IsDue two_bids-IsRanking 1 200 refl
      second_price

close_auction_all_pay_sells_example :
    (winner : ℕ) × (top : ℕ) × (seq : ℕ) × IsHighest two_bids.sealed_bids winner top
    × IsSold winner top 60000 seq (close_auction_all_pay zrevrange 60000 two_bids)
    × (((second : ℕ) × (amount : ℕ) × IsSecond two_bids.sealed_bids winner top second amount
          × IsForfeited second amount 60000 winner top
              (zrevrange two_bids.sealed_bids)
              two_bids
              (close_auction_all_pay zrevrange 60000 two_bids).1.stream)
        ⊎ (IsAlone two_bids.sealed_bids winner
            × IsSoldAlone 60000 winner top
                (zrevrange two_bids.sealed_bids)
                two_bids
                (close_auction_all_pay zrevrange 60000 two_bids).1.stream))
unfolding lookup
close_auction_all_pay_sells_example =
    close_auction_all_pay_sells zrevrange 60000 two_bids two_bids-IsDue two_bids-IsRanking 1 200
      refl

room-IsSealedRoom : IsSealedRoom 100 60000 room
unfolding is_live lookup
room-IsSealedRoom = ground arith

placed-IsRanking :
    IsRanking (zrevrange (sealed_run bids room).sealed_bids) (sealed_run bids room).sealed_bids
unfolding sealed_run place_bid_sealed state_refusal dedupe_get raise_score lookup insert
placed-IsRanking = ((λ u. ground arith), (300, ground arith))

sealed_auction_bounded_example :
    (winner : ℕ) × (top : ℕ) × (price : ℕ) × IsHighest (sealed_run bids room).sealed_bids winner top
    × (100 ≤ price)
    × (price ≤ top)
    × IsSold winner price 60000
        ((sealed_run bids room).state.seq + 1 + 1)
        (close_auction_sealed zrevrange second_price 60000 (sealed_run bids room))
unfolding sealed_run place_bid_sealed state_refusal dedupe_get raise_score lookup insert
sealed_auction_bounded_example =
    sealed_auction_bounded zrevrange second_price bids 100 60000 60000 room refl room-IsSealedRoom
      (ground arith) placed-IsRanking 1 200 refl
