-- ===== src/Engine/PlaceBid/Outcome.antt =====
-- What a bid does: when it is accepted, what it writes, and what a refusal and a retry leave alone.
use live_auction_system.Prelude.{
  ℕ, ◌+◌, ◌*◌, ◌<◌, ◌≡◌, refl, ◌⊎◌, ◌↔◌, inl, inr, Bool, true, false, none, some, Option, arith,
  Option-cases, if◌then◌else◌, ◌||◌,
}
use live_auction_system.Prelude.Assoc.{lookup, insert, lookup-insert}
use live_auction_system.Model.Status.{live, sold, is_terminal}
use live_auction_system.Model.Events.{BidAcceptedData, event_seq}
use live_auction_system.Engine.Room.{Room, dedupe_get, or_empty}
use live_auction_system.Engine.Invariant.{IsWellFormed}
use live_auction_system.Engine.PlaceBid.{
  BidArgs, BidReply, ack_bid, accepted_state, types_ok, ok_accepted, ok_extended, ok_sold,
  duplicate, bid_refusal, required_price, accept_bid, adjudicate, state_refusal, amount_refusal,
  is_cap_hit, extends,
}
use live_auction_system.Engine.PlaceBid.Admission.{
  IsOffer, IsAdmissible, bid_refusal-none, adjudicate_accepts,
}

-- The ack of an accepted bid.
abbrev pub acceptance : BidReply → Option BidAcceptedData
acceptance (ok_accepted _ ack) = some ack
acceptance (ok_extended _ ack _ _) = some ack
acceptance (ok_sold _ ack _ _) = some ack
acceptance _ = none

abbrev pub is_acceptance : BidReply → Bool
is_acceptance reply = elim (acceptance reply) [ none ↦ false | some _ ↦ true ]

-- A bid that is admitted exceeds the price that it replaces.
pub offer-lt :
    (r : Room) (n : ℕ)
    → IsWellFormed r
    → r.state.status ≡ live
    → IsOffer r.state n
    → r.state.current_price_cents < n
unfolding required_price is_terminal
offer-lt r n w l o = ground arith

module _ (hybrid : Bool) (a : BidArgs) (now : ℕ) (r : Room) where
  refusal_not_acceptance :
      {reply : BidReply} → bid_refusal r a now ≡ some reply → is_acceptance reply ≡ false
  unfolding bid_refusal state_refusal amount_refusal
  refusal_not_acceptance h = ground arith

  accept_bid-acceptance :
      (n : ℕ) → IsAdmissible r a n now → is_acceptance (accept_bid hybrid a n now r).0 ≡ true
  unfolding accept_bid event_seq
  accept_bid-acceptance n h = ground arith

  -- A reply that is no acceptance comes with the room unchanged.
  pub adjudicate_refuses :
      is_acceptance (adjudicate hybrid a now r).0 ≡ false → (adjudicate hybrid a now r).1 ≡ r
  unfolding adjudicate
  adjudicate_refuses h = elim (Option-cases (bid_refusal r a now)) [
    | inl admitted ↦
        let (n, ok) = bid_refusal-none r a now admitted in
        cc (accept_bid-acceptance n ok, adjudicate_accepts hybrid a n now r ok, h)
    | inr (reply, refused) ↦ rw (refused, adjudicate)
  ]

adjudicate_of_refusal :
    (hybrid : Bool) (a : BidArgs) (now : ℕ) (r : Room) {reply : BidReply}
    → bid_refusal r a now ≡ some reply
    → adjudicate hybrid a now r ≡ (reply, r)
unfolding adjudicate
adjudicate_of_refusal hybrid a now r h = rw (h, adjudicate)

-- A bid is accepted exactly if it is admissible: the keys have the right types, the token is new for
-- the user, the auction is live, not paused and before its end, the bidder is not the seller, the
-- amount reaches the required price within the cap and the money limit, and the Stream is in step.
pub place_bid_accepts_iff :
    (hybrid : Bool) (a : BidArgs) (now : ℕ) (r : Room)
    → (is_acceptance (adjudicate hybrid a now r).0 ≡ true) ↔ ((n : ℕ) × IsAdmissible r a n now)
place_bid_accepts_iff hybrid a now r = (only_if, if_admissible)
  where
    only_if : is_acceptance (adjudicate hybrid a now r).0 ≡ true → (n : ℕ) × IsAdmissible r a n now
    only_if h = elim (Option-cases (bid_refusal r a now)) [
      | inl admitted ↦ bid_refusal-none r a now admitted
      | inr (reply, refused) ↦ cc (
        adjudicate_of_refusal hybrid a now r refused,
        refusal_not_acceptance hybrid a now r refused,
        h,
      )
    ]

    if_admissible :
        (n : ℕ) × IsAdmissible r a n now → is_acceptance (adjudicate hybrid a now r).0 ≡ true
    if_admissible (n, h) =
        rw (adjudicate_accepts hybrid a n now r h) (accept_bid-acceptance hybrid a now r n h)

-- The room and the reply after an admissible bid, in a well-formed room.
pub record IsAccepted (hybrid : Bool) (a : BidArgs) (n now : ℕ) (r r' : Room) : Type 0 where
  pub leader : r'.state.winner_id ≡ a.user_id
  pub price : r'.state.current_price_cents ≡ n
  pub raised : r.state.current_price_cents < n
  pub one_more : r'.state.bid_count ≡ r.state.bid_count + 1
  pub sold_at_cap : (r'.state.status ≡ sold) ↔ (n ≡ r.state.cap_price_cents)
  pub else_live : (r'.state.status ≡ sold) ⊎ (r'.state.status ≡ live)
  pub extended : r'.state.end_at_ms ≡ (
      if extends r.state n now
      then r.state.end_at_ms + r.state.extend_sec * 1000
      else r.state.end_at_ms)
  pub counted :
      r'.state.extend_count
      ≡ (if extends r.state n now then r.state.extend_count + 1 else r.state.extend_count)
  pub seq_step :
      r'.state.seq
      ≡ (if extends r.state n now || is_cap_hit r.state n then r.state.seq + 2 else r.state.seq + 1)

accept_bid_effect :
    (hybrid : Bool) (a : BidArgs) (n now : ℕ) (r : Room)
    → IsWellFormed r
    → IsAdmissible r a n now
    → IsAccepted hybrid a n now r (accept_bid hybrid a n now r).1
unfolding accept_bid event_seq
accept_bid_effect hybrid a n now r w h =
    ground (arith, offer-lt r n w h.open_now.is_live_now h.offer)

-- An admissible bid makes the bidder the leader at the amount bid, which exceeds the price before
-- it; sells the auction exactly if it meets the cap; and otherwise moves the end exactly if the
-- anti-snipe test holds. It takes one `seq`, or two with a second event.
pub place_bid_effect :
    (hybrid : Bool) (a : BidArgs) (n now : ℕ) (r : Room)
    → IsWellFormed r
    → IsAdmissible r a n now
    → IsAccepted hybrid a n now r (adjudicate hybrid a now r).1
place_bid_effect hybrid a n now r w h =
    rw (adjudicate_accepts hybrid a n now r h) (accept_bid_effect hybrid a n now r w h)

pub accept_bid_stores :
    (hybrid : Bool) (a : BidArgs) (n now : ℕ) (r : Room)
    → IsAdmissible r a n now
    → let ack = ack_bid r.state (accepted_state hybrid r.state a n now) a n now in
      let (reply, r') = accept_bid hybrid a n now r in
      (acceptance reply ≡ some ack)
      × (dedupe_get a.user_id a.client_bid_id r' ≡ some ack)
      × (types_ok r' ≡ true)
unfolding accept_bid event_seq dedupe_get
accept_bid_stores hybrid a n now r h =
    let ack = ack_bid r.state (accepted_state hybrid r.state a n now) a n now in
    let own = or_empty (lookup a.user_id r.dedupe) in
    ground (
      arith,
      lookup-insert a.user_id a.user_id (insert a.client_bid_id ack own) r.dedupe,
      lookup-insert a.client_bid_id a.client_bid_id ack own,
    )

pub adjudicate_duplicate :
    (hybrid : Bool) (b : BidArgs) (later : ℕ) (r : Room) (ack : BidAcceptedData)
    → dedupe_get b.user_id b.client_bid_id r ≡ some ack
    → types_ok r ≡ true
    → adjudicate hybrid b later r ≡ (duplicate ack, r)
unfolding bid_refusal
adjudicate_duplicate hybrid b later r ack e t = adjudicate_of_refusal hybrid b later r (rw (t, e))

-- Whatever the reply, a bid leaves the extension rules alone.
pub place_bid_rules :
    (hybrid : Bool) (a : BidArgs) (now : ℕ) (r : Room)
    → ((adjudicate hybrid a now r).1.state.extend_sec ≡ r.state.extend_sec)
      × ((adjudicate hybrid a now r).1.state.max_extensions ≡ r.state.max_extensions)
unfolding adjudicate accept_bid
place_bid_rules hybrid a now r = elim (Option-cases (bid_refusal r a now)) [
  | inl admitted ↦ rw (admitted, adjudicate) (ground arith)
  | inr (reply, refused) ↦ rw (refused, adjudicate) (refl, refl)
]
