-- ===== src/Engine/Trace/Retry.antt =====
-- The retry of an accepted bid, after other scripts have run.
use live_auction_system.Prelude.{
  ℕ, ◌≡◌, ◌≢◌, ◌∙◌, ◌==◌, ◌&&◌, ap, Bool, true, none, some, arith, inl, inr, Bool-cases,
}
use live_auction_system.Prelude.Assoc.{lookup, insert, delete, lookup-insert, lookup-delete}
use live_auction_system.Model.Events.{BidAcceptedData, event_seq}
use live_auction_system.Engine.Room.{Room, dedupe_get, or_empty}
use live_auction_system.Engine.PlaceBid.{
  BidArgs, adjudicate, accept_bid, ack_bid, accepted_state, types_ok, duplicate,
}
use live_auction_system.Engine.PlaceBid.Admission.{IsAdmissible, adjudicate_accepts}
use live_auction_system.Engine.PlaceBid.Outcome.{
  is_acceptance, acceptance, place_bid_accepts_iff, adjudicate_refuses, adjudicate_duplicate,
  accept_bid_stores,
}
use live_auction_system.Engine.Lifecycle.{
  freeze_rules, start_auction, close_auction, cancel_auction,
}
use live_auction_system.Engine.Trace.{
  Step, bid, freeze, start, close, cancel, pause, expire, Reach, here, next,
}

-- In none of the steps the dedupe Hash of the user expires.
abbrev pub UnexpiredStep : ℕ → {r t : Room} → Step r t → Type 0
UnexpiredStep user (expire other _) = other ≢ user
UnexpiredStep user _ = Unit {0}

abbrev pub Unexpired : ℕ → {r t : Room} → Reach r t → Type 0
Unexpired user here = Unit {0}
Unexpired user (next reached step) = Unexpired user reached × UnexpiredStep user step

-- The room holds an ack for the token, and its keys have the right types.
pub record IsRecorded (user token : ℕ) (ack : BidAcceptedData) (r : Room) : Type 0 where
  pub stored : dedupe_get user token r ≡ some ack
  pub types : types_ok r ≡ true

accept_bid-dedupe :
    (hybrid : Bool) (a : BidArgs) (n now : ℕ) (r : Room)
    → IsAdmissible r a n now
    → ((accept_bid hybrid a n now r).1.dedupe
        ≡ insert a.user_id
            (insert a.client_bid_id
              (ack_bid r.state (accepted_state hybrid r.state a n now) a n now)
              (or_empty (lookup a.user_id r.dedupe)))
            r.dedupe)
      × ((accept_bid hybrid a n now r).1.types ≡ r.types)
unfolding accept_bid event_seq
accept_bid-dedupe hybrid a n now r ok = ground (arith, ok.lockstep)

-- A token of another bid is kept.
insert_keeps :
    (user token u t : ℕ) (ack new : BidAcceptedData) (r : Room)
    → dedupe_get user token r ≡ some ack
    → dedupe_get u t r ≡ none
    → lookup token
        (or_empty (lookup user (insert u (insert t new (or_empty (lookup u r.dedupe))) r.dedupe)))
      ≡ some ack
unfolding dedupe_get
insert_keeps user token u t ack new r h fresh = elim (Bool-cases (user == u)) [
  | inl e ↦ elim (Bool-cases (token == t)) [
    | inl e' ↦ ground (arith, e, e', h, fresh)
    | inr e' ↦ ground (
      arith,
      e,
      e',
      h,
      lookup-insert user u (insert t new (or_empty (lookup u r.dedupe))) r.dedupe,
      lookup-insert token t new (or_empty (lookup u r.dedupe)),
    )
  ]
  | inr e ↦
      ground
        (arith, e, h, lookup-insert user u (insert t new (or_empty (lookup u r.dedupe))) r.dedupe)
]

accepted-IsRecorded :
    (hybrid : Bool) (a : BidArgs) (n now : ℕ) (r : Room) (user token : ℕ) (ack : BidAcceptedData)
    → IsAdmissible r a n now
    → IsRecorded user token ack r
    → IsRecorded user token ack (accept_bid hybrid a n now r).1
unfolding dedupe_get
accepted-IsRecorded hybrid a n now r user token ack ok h =
    let (dedupe, types) = accept_bid-dedupe hybrid a n now r ok in
    record {
      stored =
          ap (λ m. lookup token (or_empty (lookup user m))) dedupe
          ∙ insert_keeps user token a.user_id a.client_bid_id ack
              (ack_bid r.state (accepted_state hybrid r.state a n now) a n now) r h.stored
              ok.first_time;
      types =
          ap (λ k. k.state_ok && k.leaderboard_ok && k.stream_ok && k.dedupe_ok) types ∙ h.types;
    }

bid-IsRecorded :
    (hybrid : Bool) (a : BidArgs) (now : ℕ) (r : Room) (user token : ℕ) (ack : BidAcceptedData)
    → IsRecorded user token ack r
    → IsRecorded user token ack (adjudicate hybrid a now r).1
bid-IsRecorded hybrid a now r user token ack h =
    elim (Bool-cases (is_acceptance (adjudicate hybrid a now r).0)) [
      | inl taken ↦
          let (n, ok) = (place_bid_accepts_iff hybrid a now r).0 taken in
          rw (adjudicate_accepts hybrid a n now r ok)
            (accepted-IsRecorded hybrid a n now r user token ack ok h)
      | inr refused ↦ rw (adjudicate_refuses hybrid a now r refused) h
    ]

-- A script that leaves the dedupe Hashes and the types alone.
same-IsRecorded :
    (user token : ℕ) (ack : BidAcceptedData) (r t : Room)
    → t.dedupe ≡ r.dedupe
    → t.types ≡ r.types
    → IsRecorded user token ack r
    → IsRecorded user token ack t
unfolding dedupe_get
same-IsRecorded user token ack r t d k h = record {
  stored = ap (λ m. lookup token (or_empty (lookup user m))) d ∙ h.stored;
  types = ap (λ x. x.state_ok && x.leaderboard_ok && x.stream_ok && x.dedupe_ok) k ∙ h.types;
}

expire-IsRecorded :
    (other user token : ℕ) (ack : BidAcceptedData) (r : Room)
    → other ≢ user
    → IsRecorded user token ack r
    → IsRecorded user token ack (record r { dedupe = delete other r.dedupe })
unfolding dedupe_get
expire-IsRecorded other user token ack r apart h = record {
  stored = ground (arith, lookup-delete user other r.dedupe, h.stored, apart);
  types = h.types;
}

Step-IsRecorded :
    (user token : ℕ) (ack : BidAcceptedData) (r t : Room) (step : Step r t)
    → UnexpiredStep user step
    → IsRecorded user token ack r
    → IsRecorded user token ack t
unfolding freeze_rules start_auction close_auction cancel_auction event_seq dedupe_get
Step-IsRecorded user token ack r _ (bid hybrid a now _ named) x h =
    bid-IsRecorded hybrid a now r user token ack h
Step-IsRecorded user token ack r _ (freeze rules seller _ v) x h =
    same-IsRecorded user token ack r (freeze_rules rules seller r).1 (ground arith) (ground arith) h
Step-IsRecorded user token ack r _ (start duration_ms now _) x h =
    same-IsRecorded user token ack r (start_auction duration_ms now r).1 (ground arith)
      (ground arith) h
Step-IsRecorded user token ack r _ (close now _) x h =
    same-IsRecorded user token ack r (close_auction now r).1 (ground arith) (ground arith) h
Step-IsRecorded user token ack r _ (cancel caller now _) x h =
    same-IsRecorded user token ack r (cancel_auction caller now r).1 (ground arith) (ground arith) h
Step-IsRecorded user token ack r _ (pause p _) x h = record { stored = h.stored; types = h.types }
Step-IsRecorded user token ack r _ (expire other _) x h =
    expire-IsRecorded other user token ack r x h

Reach-IsRecorded :
    (user token : ℕ) (ack : BidAcceptedData) {r t : Room} (reached : Reach r t)
    → Unexpired user reached
    → IsRecorded user token ack r
    → IsRecorded user token ack t
Reach-IsRecorded user token ack here x h = h
Reach-IsRecorded user token ack (next {s = s} {t = t} reached step) x h =
    Step-IsRecorded user token ack s t step x.1 (Reach-IsRecorded user token ack reached x.0 h)

-- After an accepted bid and any later runs of place_bid.lua and place_bid_hybrid.lua by bidders with a
-- user id, and of the scripts that freeze valid rules, start, close and cancel, during which the
-- dedupe Hash of the bidder does not expire (Redis deletes it 24 hours after the last EXPIRE), a bid
-- of the same user with the same token is answered with the first ack, whatever its amount and the
-- state of the auction, and changes nothing.
pub Reach-retry :
    (hybrid again : Bool) (a b : BidArgs) (now later : ℕ) (r : Room) {t : Room}
    (reached : Reach (adjudicate hybrid a now r).1 t)
    → is_acceptance (adjudicate hybrid a now r).0 ≡ true
    → b.user_id ≡ a.user_id
    → b.client_bid_id ≡ a.client_bid_id
    → Unexpired a.user_id reached
    → (ack : BidAcceptedData) × (acceptance (adjudicate hybrid a now r).0 ≡ some ack)
      × (adjudicate again b later t ≡ (duplicate ack, t))
Reach-retry hybrid again a b now later r {t} reached h u c x =
    let (n, ok) = (place_bid_accepts_iff hybrid a now r).0 h in
    let (accepted, stored, types) = accept_bid_stores hybrid a n now r ok in
    let ack = ack_bid r.state (accepted_state hybrid r.state a n now) a n now in
    let q = adjudicate_accepts hybrid a n now r ok in
    let before : IsRecorded a.user_id a.client_bid_id ack (adjudicate hybrid a now r).1 =
      rw q (record { stored = stored; types = types }) in
    let k = Reach-IsRecorded a.user_id a.client_bid_id ack reached x before in
    (ack, rw q accepted, adjudicate_duplicate again b later t ack (rw (u, c) k.stored) k.types)
