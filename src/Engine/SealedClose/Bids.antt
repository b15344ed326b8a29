-- ===== src/Engine/SealedClose/Bids.antt =====
-- The bids of a sealed auction, before its close.
use live_auction_system.Prelude.{
  ℕ, ◌≤◌, ◌≡◌, ◌∙◌, refl, true, List, [], ◌∷◌, none, some, arith, Option-cases, inl, inr,
}
use live_auction_system.Prelude.Assoc.{Assoc, lookup, lookup-insert}
use live_auction_system.Model.Status.{is_live}
use live_auction_system.Model.Events.{event_seq}
use live_auction_system.Engine.Room.{Room, last_stream_seq, raise_score, xadd, dedupe_set}
use live_auction_system.Engine.PlaceBid.{BidArgs}
use live_auction_system.Engine.Sealed.{
  place_bid_sealed, sealed_refusal, sealed_amount_refusal, accept_sealed, amount_or_zero,
}

-- Runs of place_bid_sealed.lua, each bid with the time that Redis saw.
unfoldable pub sealed_run : List (BidArgs × ℕ) → Room → Room
unfolding place_bid_sealed
sealed_run [] r = r
sealed_run ((a, now) ∷ bids) r = sealed_run bids (place_bid_sealed a now r).1

-- What bids leave alone, and the start price under every bid.
pub record IsSealedRoom (start end : ℕ) (r : Room) : Type 0 where
  pub running : is_live r.state.status ≡ true
  pub ends : r.state.end_at_ms ≡ end
  pub starts : r.state.start_price_cents ≡ start
  pub in_step : last_stream_seq r.stream ≡ r.state.seq
  pub reserved : (u v : ℕ) → lookup u r.sealed_bids ≡ some v → start ≤ v

raise_score-reserved :
    (start user amount : ℕ) (bids : Assoc ℕ)
    → start ≤ amount
    → ((u v : ℕ) → lookup u bids ≡ some v → start ≤ v)
    → (u v : ℕ) → lookup u (raise_score user amount bids) ≡ some v
    → start ≤ v
unfolding raise_score
raise_score-reserved start user amount bids h reserved u v e =
    ground (arith, h, reserved u v, e, lookup-insert u user amount bids)

accept_sealed-IsSealedRoom :
    (start end : ℕ) (a : BidArgs) (amount now : ℕ) (r : Room)
    → start ≤ amount
    → IsSealedRoom start end r
    → IsSealedRoom start end (accept_sealed a amount now r).1
      × ((accept_sealed a amount now r).1.types ≡ r.types)
unfolding accept_sealed xadd event_seq dedupe_set
accept_sealed-IsSealedRoom start end a amount now r h s = (
  record {
    running = ground (arith, s.in_step, s.running);
    ends = ground (arith, s.in_step, s.ends);
    starts = ground (arith, s.in_step, s.starts);
    in_step = ground (arith, s.in_step);
    reserved = λ u v e.
        raise_score-reserved start a.user_id amount r.sealed_bids h s.reserved u v
          (ground (arith, s.in_step, e));
  },
  ground (arith, s.in_step),
)

sealed_refusal-reserved :
    (a : BidArgs) (now : ℕ) (r : Room)
    → sealed_refusal r a now ≡ none
    → r.state.start_price_cents ≤ amount_or_zero a.amount
unfolding sealed_refusal sealed_amount_refusal
sealed_refusal-reserved a now r h = ground (arith, h)

place_bid_sealed-IsSealedRoom :
    (start end : ℕ) (a : BidArgs) (now : ℕ) (r : Room)
    → IsSealedRoom start end r
    → IsSealedRoom start end (place_bid_sealed a now r).1
      × ((place_bid_sealed a now r).1.types ≡ r.types)
unfolding place_bid_sealed
place_bid_sealed-IsSealedRoom start end a now r s = elim (Option-cases (sealed_refusal r a now)) [
  | inl taken ↦
      rw (taken, place_bid_sealed)
        (accept_sealed-IsSealedRoom start end a (amount_or_zero a.amount) now r
          (ground (arith, s.starts, sealed_refusal-reserved a now r taken)) s)
  | inr (reply, refused) ↦ rw (refused, place_bid_sealed) (s, refl)
]

pub sealed_run-IsSealedRoom :
    (start end : ℕ) (bids : List (BidArgs × ℕ)) (r : Room)
    → IsSealedRoom start end r
    → IsSealedRoom start end (sealed_run bids r) × ((sealed_run bids r).types ≡ r.types)
unfolding sealed_run
sealed_run-IsSealedRoom start end [] r s = (s, refl)
sealed_run-IsSealedRoom start end ((a, now) ∷ bids) r s =
    let (s', t) = place_bid_sealed-IsSealedRoom start end a now r s in
    let (s'', t') = sealed_run-IsSealedRoom start end bids (place_bid_sealed a now r).1 s' in
    (s'', t' ∙ t)
