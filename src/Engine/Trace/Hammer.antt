-- ===== src/Engine/Trace/Hammer.antt =====
-- The end of a live auction: anti-snipe extensions are bounded, and the hammer sells to the leader.
use live_auction_system.Prelude.{
  ℕ, ◌+◌, ◌*◌, ◌≤◌, ◌<◌, ◌≡◌, ◌≢◌, ◌⊎◌, refl, ◌∙◌, Bool, true, false, some, arith, inl, inr,
  Bool-cases, ◌&&◌, ℕ_discrete, [], if◌then◌else◌,
}
use live_auction_system.Prelude.Assoc.{lookup}
use live_auction_system.Model.Status.{live, sold, no_bid}
use live_auction_system.Engine.Room.{Room, KeyTypes}
use live_auction_system.Engine.Invariant.{IsWellFormed, is_early}
use live_auction_system.Engine.PlaceBid.{BidArgs, adjudicate, extends}
use live_auction_system.Engine.PlaceBid.Admission.{IsAdmissible}
use live_auction_system.Engine.PlaceBid.Outcome.{
  is_acceptance, place_bid_effect, place_bid_accepts_iff, adjudicate_refuses, place_bid_rules,
}
use live_auction_system.Engine.Lifecycle.{
  closed_sold, closed_no_bid, freeze_rules, start_auction, close_auction, cancel_auction,
}
use live_auction_system.Engine.Lifecycle.Outcome.{
  sold_at, no_bid_at, close_auction_sells, close_auction_passes,
}
use live_auction_system.Engine.Trace.{
  Step, bid, freeze, start, close, cancel, pause, expire, Reach, Reach-keeps, here, next,
  empty_room,
}
use live_auction_system.Engine.Trace.WellFormed.{Reach-IsWellFormed, Step-IsWellFormed}
use live_auction_system.Engine.Trace.Leader.{Reach-IsLed}

-- Once started, an auction keeps its extension rules, and its end moves by `extend_sec` for each
-- extension counted.
pub record IsAfter (r t : Room) : Type 0 where
  pub started : is_early t.state.status ≡ false
  pub same_extend : t.state.extend_sec ≡ r.state.extend_sec
  pub same_limit : t.state.max_extensions ≡ r.state.max_extensions
  pub moved :
      t.state.end_at_ms + r.state.extend_count * (r.state.extend_sec * 1000)
      ≡ r.state.end_at_ms + t.state.extend_count * (r.state.extend_sec * 1000)

-- One more extension moves the end by one more `extend_sec`.
moved_on :
    (b : Bool) (e c e0 c0 x y e1 c1 : ℕ)
    → y ≡ x
    → e + c0 * (x * 1000) ≡ e0 + c * (x * 1000)
    → e1 ≡ (if b then e + y * 1000 else e)
    → c1 ≡ (if b then c + 1 else c)
    → e1 + c0 * (x * 1000) ≡ e0 + c1 * (x * 1000)
moved_on true e c e0 c0 x y e1 c1 k h p q = rw (p, q, k) (omega arith)
moved_on false e c e0 c0 x y e1 c1 k h p q = rw (p, q) h

module _ (r s : Room) (w : IsWellFormed s) (h : IsAfter r s) where
  accepted-IsAfter :
      (hybrid : Bool) (a : BidArgs) (n now : ℕ)
      → IsAdmissible s a n now
      → IsAfter r (adjudicate hybrid a now s).1
  accepted-IsAfter hybrid a n now ok =
      let e = place_bid_effect hybrid a n now s w ok in
      let (extend, limit) = place_bid_rules hybrid a now s in
      record {
        started = ground (arith, e.else_live);
        same_extend = extend ∙ h.same_extend;
        same_limit = limit ∙ h.same_limit;
        moved =
            moved_on (extends s.state n now) _ _ _ _ _ _ _ _ h.same_extend h.moved e.extended
              e.counted;
      }

  bid-IsAfter : (hybrid : Bool) (a : BidArgs) (now : ℕ) → IsAfter r (adjudicate hybrid a now s).1
  bid-IsAfter hybrid a now = elim (Bool-cases (is_acceptance (adjudicate hybrid a now s).0)) [
    | inl taken ↦
        let (n, ok) = (place_bid_accepts_iff hybrid a now s).0 taken in
        accepted-IsAfter hybrid a n now ok
    | inr refused ↦ rw (adjudicate_refuses hybrid a now s refused) h
  ]

  Step-IsAfter : (t : Room) → Step s t → IsAfter r t
  unfolding freeze_rules start_auction close_auction cancel_auction
  Step-IsAfter t (bid hybrid a now _ _) = bid-IsAfter hybrid a now
  Step-IsAfter t (freeze rules seller _ v) = ground arith
  Step-IsAfter t (start duration_ms now _) = ground arith
  Step-IsAfter t (close now _) = ground arith
  Step-IsAfter t (cancel caller now _) = ground arith
  Step-IsAfter t (pause p _) = ground arith
  Step-IsAfter t (expire user _) = ground arith

Reach-IsAfter :
    {r t : Room} → IsWellFormed r → is_early r.state.status ≡ false → Reach r t → IsAfter r t
Reach-IsAfter {r} w started here = record {
  started = started;
  same_extend = refl;
  same_limit = refl;
  moved = refl;
}
Reach-IsAfter {r} w started (next {s = s} {t = t} reached step) =
    Step-IsAfter r s (Reach-keeps IsWellFormed Step-IsWellFormed w reached)
      (Reach-IsAfter w started reached) t step

extensions_below :
    (e c e0 c0 m x : ℕ)
    → e + c0 * (x * 1000) ≡ e0 + c * (x * 1000)
    → c ≤ m
    → e ≤ e0 + m * (x * 1000)
extensions_below e c e0 c0 m x h k = grind arith

-- From the moment a well-formed auction is live, with a limit on its extensions, its end never
-- passes the end it had then by more than `max_extensions` times `extend_sec`, whatever is bid.
pub hammer_bounded :
    {r t : Room}
    → IsWellFormed r
    → r.state.status ≡ live
    → 0 < r.state.max_extensions
    → Reach r t
    → t.state.end_at_ms ≤ r.state.end_at_ms + r.state.max_extensions * (r.state.extend_sec * 1000)
hammer_bounded {r} {t} w l m reached =
    let h = Reach-IsAfter w (rw l refl) reached in
    let after = Reach-keeps IsWellFormed Step-IsWellFormed w reached in
    extensions_below t.state.end_at_ms t.state.extend_count r.state.end_at_ms r.state.extend_count
      r.state.max_extensions r.state.extend_sec h.moved
      (ground (arith, h.started, h.same_limit, after.priced))

-- When the hammer falls on a live auction that the scripts reached, at or after its end, it sells to
-- the winner if there is one, at the price, which is the winner's score and the highest score; and
-- otherwise it records NO_BID. No bidder had a score in that case.
pub hammer_sells :
    (types : KeyTypes) (now : ℕ) {r : Room}
    → Reach (empty_room types) r
    → r.state.status ≡ live
    → r.state.end_at_ms ≤ now
    → (r.types.state_ok && r.types.stream_ok) ≡ true
    → let (reply, r') = close_auction now r in
      ((r.state.winner_id ≢ 0)
        × (reply ≡ closed_sold (r.state.seq + 1) (sold_at now r))
        × (r'.state.status ≡ sold)
        × (lookup r.state.winner_id r.leaderboard ≡ some r.state.current_price_cents)
        × ((u v : ℕ) → lookup u r.leaderboard ≡ some v → v ≤ r.state.current_price_cents))
      ⊎ ((reply ≡ closed_no_bid (r.state.seq + 1) (no_bid_at now r))
          × (r'.state.status ≡ no_bid)
          × (r.leaderboard ≡ []))
hammer_sells types now {r} reached l due ok =
    let w = Reach-IsWellFormed types reached in
    let h = Reach-IsLed types reached in
    elim (ℕ_discrete r.state.winner_id 0) [
      | yes nobody ↦
          let (reply, status) = close_auction_passes now r w l due ok nobody in
          inr (reply, status, h.nobody nobody)
      | no someone ↦
          let (reply, status) = close_auction_sells now r w l due ok someone in
          inl (someone, reply, status, h.leader someone, h.highest)
    ]
