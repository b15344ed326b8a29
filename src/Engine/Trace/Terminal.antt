-- ===== src/Engine/Trace/Terminal.antt =====
-- A terminal auction is final.
use live_auction_system.Prelude.{ℕ, ◌≡◌, refl, ◌∙◌, Bool, true, arith, inl, inr, Bool-cases}
use live_auction_system.Model.Status.{is_terminal, is_live}
use live_auction_system.Prelude.Assoc.{Assoc}
use live_auction_system.Engine.Room.{Room}
use live_auction_system.Engine.PlaceBid.{BidArgs, adjudicate, state_refusal}
use live_auction_system.Engine.PlaceBid.Outcome.{
  is_acceptance, place_bid_accepts_iff, adjudicate_refuses,
}
use live_auction_system.Engine.Lifecycle.{
  freeze_rules, start_auction, close_auction, cancel_auction,
}
use live_auction_system.Engine.Sealed.{place_bid_sealed, sealed_refusal}
use live_auction_system.Engine.SealedClose.{
  PriceMode, close_auction_sealed, close_auction_all_pay, close_refusal,
}
use live_auction_system.Engine.Trace.{Step, bid, freeze, start, close, cancel, pause, expire}

-- What the outcome of an auction is read from.
pub record IsSameOutcome (r t : Room) : Type 0 where
  pub status : t.state.status ≡ r.state.status
  pub winner : t.state.winner_id ≡ r.state.winner_id
  pub price : t.state.current_price_cents ≡ r.state.current_price_cents
  pub end_time : t.state.end_at_ms ≡ r.state.end_at_ms
  pub seq : t.state.seq ≡ r.state.seq
  pub stream : t.stream ≡ r.stream
  pub board : t.leaderboard ≡ r.leaderboard
  pub messages : t.published ≡ r.published

unchanged : (r t : Room) → t ≡ r → IsSameOutcome r t
unchanged r t e = rw e (record {
  status = refl;
  winner = refl;
  price = refl;
  end_time = refl;
  seq = refl;
  stream = refl;
  board = refl;
  messages = refl;
})

terminal_bid_refused :
    (hybrid : Bool) (a : BidArgs) (now : ℕ) (r : Room)
    → is_terminal r.state.status ≡ true
    → (adjudicate hybrid a now r).1 ≡ r
unfolding is_terminal
terminal_bid_refused hybrid a now r h =
    elim (Bool-cases (is_acceptance (adjudicate hybrid a now r).0)) [
      | inl taken ↦
          let (n, ok) = (place_bid_accepts_iff hybrid a now r).0 taken in
          ground (arith, ok.open_now.is_live_now)
      | inr refused ↦ adjudicate_refuses hybrid a now r refused
    ]

Step-terminal : (r t : Room) → Step r t → is_terminal r.state.status ≡ true → IsSameOutcome r t
unfolding is_terminal freeze_rules start_auction close_auction cancel_auction
Step-terminal r _ (bid hybrid a now _ named) h =
    unchanged r (adjudicate hybrid a now r).1 (terminal_bid_refused hybrid a now r h)
Step-terminal r _ (freeze rules seller _ v) h =
    unchanged r (freeze_rules rules seller r).1 (ground arith)
Step-terminal r _ (start duration_ms now _) h =
    unchanged r (start_auction duration_ms now r).1 (ground arith)
Step-terminal r _ (close now _) h = unchanged r (close_auction now r).1 (ground arith)
Step-terminal r _ (cancel caller now _) h =
    unchanged r (cancel_auction caller now r).1 (ground arith)
Step-terminal r _ (pause p _) h = record {
  status = refl;
  winner = refl;
  price = refl;
  end_time = refl;
  seq = refl;
  stream = refl;
  board = refl;
  messages = refl;
}
Step-terminal r _ (expire user _) h = record {
  status = refl;
  winner = refl;
  price = refl;
  end_time = refl;
  seq = refl;
  stream = refl;
  board = refl;
  messages = refl;
}

-- The scripts of the sealed modes beside the ascending ones. `zrevrange` is Redis's ZREVRANGE.
module _ (zrevrange : Assoc ℕ → Assoc ℕ) where
  pub data AnyStep : Room → Room → Type 0 where
    ascending : {r t : Room} → Step r t → AnyStep r t
    sealed_bid : (a : BidArgs) (now : ℕ) (r : Room) → AnyStep r (place_bid_sealed a now r).1
    close_sealed :
        (mode : PriceMode) (now : ℕ) (r : Room)
        → AnyStep r (close_auction_sealed zrevrange mode now r).1
    close_all_pay : (now : ℕ) (r : Room) → AnyStep r (close_auction_all_pay zrevrange now r).1

  pub data AnyReach (r : Room) : Room → Type 0 where
    here_any : AnyReach r r
    next_any : {s t : Room} → AnyReach r s → AnyStep s t → AnyReach r t

  AnyStep-terminal :
      (r t : Room) → AnyStep r t → is_terminal r.state.status ≡ true → IsSameOutcome r t
  unfolding is_terminal place_bid_sealed sealed_refusal state_refusal is_live close_auction_sealed
      close_auction_all_pay close_refusal
  AnyStep-terminal r t (ascending step) h = Step-terminal r t step h
  AnyStep-terminal r _ (sealed_bid a now _) h =
      unchanged r (place_bid_sealed a now r).1 (ground (arith, h))
  AnyStep-terminal r _ (close_sealed mode now _) h =
      unchanged r (close_auction_sealed zrevrange mode now r).1 (ground (arith, h))
  AnyStep-terminal r _ (close_all_pay now _) h =
      unchanged r (close_auction_all_pay zrevrange now r).1 (ground (arith, h))

  -- From a terminal auction no sequence of the scripts, those of the ascending modes (place_bid and
  -- place_bid_hybrid by bidders with a user id, freeze of valid rules, start, close, cancel) and those
  -- of the sealed modes (place_bid_sealed, close_auction_sealed, close_auction_allpay), changes its
  -- status, winner, price, end, `seq`, Stream, leaderboard or Pub/Sub messages.
  pub AnyReach-terminal :
      {r t : Room} → AnyReach r t → is_terminal r.state.status ≡ true → IsSameOutcome r t
  AnyReach-terminal {r} here_any h = unchanged r r refl
  AnyReach-terminal {r} (next_any {s = s} {t = t} reached step) h =
      let before = AnyReach-terminal reached h in
      let after = AnyStep-terminal s t step (rw before.status h) in
      record {
        status = after.status ∙ before.status;
        winner = after.winner ∙ before.winner;
        price = after.price ∙ before.price;
        end_time = after.end_time ∙ before.end_time;
        seq = after.seq ∙ before.seq;
        stream = after.stream ∙ before.stream;
        board = after.board ∙ before.board;
        messages = after.messages ∙ before.messages;
      }
