-- ===== src/Engine/SealedClose/Sale.antt =====
-- Who wins a sealed auction, and the price.
use mathlib.Core.Path.{subst}
use live_auction_system.Prelude.{
  ℕ, ◌+◌, ◌≤◌, ◌≡◌, ◌≢◌, ◌⊎◌, inl, inr, refl, List, [], ◌∷◌, none, some, arith,
}
use live_auction_system.Prelude.Assoc.{Assoc, lookup}
use live_auction_system.Model.Events.{auction_sold}
use live_auction_system.Engine.Room.{Room, Entry, last_stream_seq}
use live_auction_system.Engine.SealedClose.{
  PriceMode, first_price, second_price, close_auction_sealed, close_auction_all_pay, final_price,
  forfeit_event, hammer_all_pay, revealed, revealed_event, sold_data,
}
use live_auction_system.Engine.SealedClose.Ranking.{
  IsRanking, ranked_first, ranked_second, ranked_alone,
}
use live_auction_system.Engine.SealedClose.Hammer.{
  IsDue, IsDue-unrefused, IsSold, hammer_sealed-IsSold, hammer_all_pay-IsSold, all_pay_seq,
  hammer_all_pay_second, runner_up_room, sell_ok, alone_room, hammer_all_pay_alone,
}

-- A bidder whom nobody has outbid.
abbrev pub IsHighest : Assoc ℕ → ℕ → ℕ → Type 0
IsHighest bids winner top =
    (lookup winner bids ≡ some top) × ((u v : ℕ) → lookup u bids ≡ some v → v ≤ top)

-- Of the other bidders, one whom none of them has outbid, with no more than the winner's bid.
abbrev pub IsSecond : Assoc ℕ → ℕ → ℕ → ℕ → ℕ → Type 0
IsSecond bids winner top second amount =
    (lookup second bids ≡ some amount)
    × (second ≢ winner)
    × (amount ≤ top)
    × ((u v : ℕ) → u ≢ winner → lookup u bids ≡ some v → v ≤ amount)

abbrev pub IsAlone : Assoc ℕ → ℕ → Type 0
IsAlone bids winner = (u : ℕ) → u ≢ winner → lookup u bids ≡ none

-- The price of a sale by the mode: the winner's own bid, or the highest of the others', or, for a lone
-- bidder, the start price.
abbrev pub IsPriced : PriceMode → ℕ → Assoc ℕ → ℕ → ℕ → ℕ → Type 0
IsPriced first_price start bids winner top price = price ≡ top
IsPriced second_price start bids winner top price =
    ((second : ℕ) × IsSecond bids winner top second price) ⊎ (IsAlone bids winner × (price ≡ start))

final_price-IsPriced :
    (mode : PriceMode) (start winner top : ℕ) (rest bids : Assoc ℕ)
    → IsRanking ((winner, top) ∷ rest) bids
    → IsPriced mode start bids winner top (final_price mode start top rest)
unfolding final_price
final_price-IsPriced first_price start winner top rest bids ranking = refl
final_price-IsPriced second_price start winner top [] bids ranking =
    inr (ranked_alone winner top bids ranking, refl)
final_price-IsPriced second_price start winner top ((second, amount) ∷ rest) bids ranking =
    inl (second, ranked_second winner top second amount rest bids ranking)

List-cases :
    (z : Assoc ℕ)
    → (z ≡ []) ⊎ ((winner : ℕ) × (top : ℕ) × (rest : Assoc ℕ) × (z ≡ (winner, top) ∷ rest))
List-cases [] = inl refl
List-cases ((winner, top) ∷ rest) = inr (winner, top, rest, refl)

-- A ranking of at least one bid is not empty.
unranked : (z bids : Assoc ℕ) (u v : ℕ) → IsRanking z bids → lookup u bids ≡ some v → z ≢ []
unfolding lookup
unranked z bids u v (same, _) h e = ground (arith, same u, h, e)

-- The revealed list of the room's bids, as the entry after its newest one.
abbrev pub revealed_entry : ℕ → ℕ → ℕ → Assoc ℕ → Room → Entry
revealed_entry now winner top ranking r = record {
  id = r.state.seq + 1;
  event = revealed_event winner top (revealed r.sealed_names ranking) now (r.state.seq + 1);
}

abbrev pub sale_entry : ℕ → ℕ → ℕ → ℕ → Entry
sale_entry now winner top seq = record {
  id = seq;
  event = auction_sold (sold_data winner top now seq);
}

-- The Stream of a sale to a lone bidder: the revealed list and the sale are new.
abbrev pub IsSoldAlone : ℕ → ℕ → ℕ → Assoc ℕ → Room → List Entry → Type 0
IsSoldAlone now winner top ranking r stream =
    stream
    ≡ sale_entry now winner top (r.state.seq + 1 + 1)
      ∷ revealed_entry now winner top ranking r
      ∷ r.stream

-- With a runner-up, a forfeit that takes the amount from the runner-up stands between the two.
abbrev pub IsForfeited : ℕ → ℕ → ℕ → ℕ → ℕ → Assoc ℕ → Room → List Entry → Type 0
IsForfeited user amount now winner top ranking r stream =
    stream
    ≡ sale_entry now winner top (r.state.seq + 1 + 1 + 1)
      ∷ record {
        id = r.state.seq + 1 + 1;
        event = forfeit_event user amount now (r.state.seq + 1 + 1);
      }
      ∷ revealed_entry now winner top ranking r
      ∷ r.stream

hammer_all_pay_forfeits :
    (now winner top : ℕ) (rest : Assoc ℕ) (r : Room)
    → last_stream_seq r.stream ≡ r.state.seq
    → IsRanking ((winner, top) ∷ rest) r.sealed_bids
    → ((second : ℕ) × (amount : ℕ) × IsSecond r.sealed_bids winner top second amount
        × IsForfeited second amount now winner top
            ((winner, top) ∷ rest)
            r
            (hammer_all_pay now winner top rest r).1.stream)
      ⊎ (IsAlone r.sealed_bids winner
          × IsSoldAlone now winner top
              ((winner, top) ∷ rest)
              r
              (hammer_all_pay now winner top rest r).1.stream)
hammer_all_pay_forfeits now winner top [] r h is_ranked = inr (
  ranked_alone winner top r.sealed_bids is_ranked,
  rw
      (
        hammer_all_pay_alone now winner top r h,
        sell_ok winner top now (alone_room now winner top r) refl,
      )
      refl,
)
hammer_all_pay_forfeits now winner top ((second, amount) ∷ rest) r h is_ranked = inl (
  second,
  amount,
  ranked_second winner top second amount rest r.sealed_bids is_ranked,
  rw
      (
        hammer_all_pay_second now winner top second amount rest r h,
        sell_ok winner top now (runner_up_room now winner top second amount rest r) refl,
      )
      refl,
)

module _ (zrevrange : Assoc ℕ → Assoc ℕ) (now : ℕ) (r : Room) (due : IsDue now r)
    (ranking : IsRanking (zrevrange r.sealed_bids) r.sealed_bids) (u v : ℕ)
    (bid : lookup u r.sealed_bids ≡ some v) where
  ranked :
      (winner : ℕ) × (top : ℕ) × (rest : Assoc ℕ) × (zrevrange r.sealed_bids ≡ (winner, top) ∷ rest)
      × IsRanking ((winner, top) ∷ rest) r.sealed_bids
  ranked = elim (List-cases (zrevrange r.sealed_bids)) [
    | inl nothing ↦
        absurd (unranked (zrevrange r.sealed_bids) r.sealed_bids u v ranking bid nothing)
    | inr (winner, top, rest, z) ↦
        (winner, top, rest, z, subst (λ l. IsRanking l r.sealed_bids) z ranking)
  ]

  -- Let a room be live, at or after its end, in step, with right key types, and with a bid, and let
  -- ZREVRANGE rank its bids. Then close_auction_sealed.lua sells to a bidder whom nobody has outbid. In
  -- FIRST mode the price is that bid, and in SECOND mode the highest bid of the others or, if there is
  -- no other bidder, the start price; the reply and the state tell this sale, the Stream ends at the
  -- state's seq, and the private bids are gone.
  pub close_auction_sealed_sells :
      (mode : PriceMode)
      → (winner : ℕ) × (top : ℕ) × (price : ℕ) × IsHighest r.sealed_bids winner top
        × IsPriced mode r.state.start_price_cents r.sealed_bids winner top price
        × IsSold winner price now (r.state.seq + 1 + 1) (close_auction_sealed zrevrange mode now r)
  unfolding close_auction_sealed
  close_auction_sealed_sells mode =
      let (winner, top, rest, z, is_ranked) = ranked in
      (
        winner,
        top,
        final_price mode r.state.start_price_cents top rest,
        ranked_first winner top rest r.sealed_bids is_ranked,
        final_price-IsPriced mode r.state.start_price_cents winner top rest r.sealed_bids is_ranked,
        rw (IsDue-unrefused now r due, close_auction_sealed, z)
            (hammer_sealed-IsSold mode now winner top rest r due.in_step),
      )

  -- In the same case close_auction_allpay.lua sells to a bidder whom nobody has outbid, at that bid.
  -- What it adds to the Stream is the revealed list of all bids in their rank, then, if anybody else has
  -- bid, the event that takes the highest bid of the others from its bidder, and last the sale.
  pub close_auction_all_pay_sells :
      (winner : ℕ) × (top : ℕ) × (seq : ℕ) × IsHighest r.sealed_bids winner top
      × IsSold winner top now seq (close_auction_all_pay zrevrange now r)
      × (((second : ℕ) × (amount : ℕ) × IsSecond r.sealed_bids winner top second amount
            × IsForfeited second amount now winner top
                (zrevrange r.sealed_bids)
                r
                (close_auction_all_pay zrevrange now r).1.stream)
          ⊎ (IsAlone r.sealed_bids winner
              × IsSoldAlone now winner top
                  (zrevrange r.sealed_bids)
                  r
                  (close_auction_all_pay zrevrange now r).1.stream))
  unfolding close_auction_all_pay
  close_auction_all_pay_sells =
      let (winner, top, rest, z, is_ranked) = ranked in
      (
        winner,
        top,
        all_pay_seq r.state.seq rest,
        ranked_first winner top rest r.sealed_bids is_ranked,
        rw (IsDue-unrefused now r due, close_auction_all_pay, z)
            (hammer_all_pay-IsSold now winner top rest r due.in_step),
        rw (IsDue-unrefused now r due, close_auction_all_pay, z)
            (hammer_all_pay_forfeits now winner top rest r due.in_step is_ranked),
      )
