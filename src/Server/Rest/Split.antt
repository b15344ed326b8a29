-- ===== src/Server/Rest/Split.antt =====
-- MySQL and Redis under freeze, start, cancel and PATCH, apps/lumen/internal/server/api.go.
use live_auction_system.Prelude.{
  ℕ, Bool, true, false, Option, none, some, ◌≡◌, refl, ap, ◌∙◌, ◌⊎◌, inl, inr, arith, Bool-cases,
}
use live_auction_system.Model.Status.{Status, missing, scheduled, cancelled}
use live_auction_system.Model.Rules.{Rules}
use live_auction_system.Engine.Room.{Room}
use live_auction_system.Engine.Lifecycle.{
  freeze_rules, FreezeReply, ok_frozen, freeze_bad_key_type, freeze_bad_state, cancel_auction,
  CancelReply, ok_cancelled, cancel_not_allowed, cancel_key_type, cancel_seq_mismatch,
  cancel_script_error, cancel_already_terminal,
}
use live_auction_system.Model.Events.{AuctionCancelledData}
use live_auction_system.Store.Orders.{Write}
use live_auction_system.Server.Rest.{Auction, Lot, store_write, set_status, answer_write}
use live_auction_system.Server.Rest.Freeze.{
  FreezeFaults, freeze_locked, is_draft, confirm_then_freeze, run_freeze, after_freeze, write_facts,
}
use live_auction_system.Server.Rest.Cancel.{
  CancelFaults, cancel_locked, lua_cancel, lua_reply, after_cancel, cancel_draft, no_redis_state,
}

unfoldable pub is_cancelled : Status → Bool
is_cancelled cancelled = true
is_cancelled _ = false

-- The row says CANCELLED.
unfoldable pub row_cancelled : Option Auction → Bool
unfolding is_cancelled
row_cancelled none = false
row_cancelled (some a) = is_cancelled a.status

-- Redis has no state of the auction, or says CANCELLED too.
unfoldable pub room_cancelled : Status → Bool
room_cancelled missing = true
room_cancelled cancelled = true
room_cancelled _ = false

-- Where MySQL says CANCELLED, Redis does not hold a running or a sold auction.
unfoldable pub Unsplit : Lot → Type 0
Unsplit lot = (row_cancelled lot.auction ≡ false) ⊎ (room_cancelled lot.room.state.status ≡ true)

-- A lot that is not cancelled in MySQL, through the calls of the freeze.
pub status_keeps :
    (w : Write) (s : Status) (lot : Lot)
    → is_cancelled s ≡ false
    → row_cancelled lot.auction ≡ false
    → row_cancelled (store_write w lot (set_status s lot)).1.auction ≡ false
unfolding store_write set_status row_cancelled
status_keeps w s lot hs h = ground (arith, hs, h)

after_freeze_keeps :
    (w : Write) (r : FreezeReply) (lot : Lot)
    → row_cancelled lot.auction ≡ false
    → row_cancelled (after_freeze w r lot).1.auction ≡ false
unfolding after_freeze answer_write is_cancelled
after_freeze_keeps w ok_frozen lot h = ground (arith, h, status_keeps w scheduled lot refl h)
after_freeze_keeps w freeze_bad_key_type lot h = h
after_freeze_keeps w (freeze_bad_state s) lot h = h

run_freeze_keeps :
    (f : FreezeFaults) (rules : Rules) (seller : ℕ) (lot : Lot)
    → row_cancelled lot.auction ≡ false
    → row_cancelled (run_freeze f rules seller lot).1.auction ≡ false
unfolding run_freeze
run_freeze_keeps f rules seller lot h = ground (
  arith,
  h,
  after_freeze_keeps f.status (freeze_rules rules seller lot.room).0
      (record lot { room = (freeze_rules rules seller lot.room).1 }) h,
)

facts_keep :
    (w : Write) (lot : Lot)
    → row_cancelled lot.auction ≡ false
    → row_cancelled (write_facts w lot).1.auction ≡ false
unfolding write_facts store_write row_cancelled
facts_keep w lot h = ground (arith, h)

confirm_keeps :
    (f : FreezeFaults) (c : Bool) (rules : Rules) (seller : ℕ) (lot : Lot)
    → row_cancelled lot.auction ≡ false
    → row_cancelled (confirm_then_freeze f c rules seller lot).1.auction ≡ false
unfolding confirm_then_freeze
confirm_keeps f c rules seller lot h =
    let g = facts_keep f.facts lot h in
    ground (
      arith,
      g,
      run_freeze_keeps f rules seller lot h,
      run_freeze_keeps f rules seller (write_facts f.facts lot).1 g,
    )

draft_row :
    (row : Option Auction) (cur : Auction)
    → row ≡ some cur
    → is_draft cur.status ≡ true
    → row_cancelled row ≡ false
unfolding row_cancelled is_draft is_cancelled
draft_row row cur e h = ground (arith, e, h)

confirmed :
    (f : FreezeFaults) (c : Bool) (rules : Rules) (seller : ℕ) (lot : Lot)
    → row_cancelled lot.auction ≡ false
    → Unsplit (confirm_then_freeze f c rules seller lot).1
unfolding Unsplit
confirmed f c rules seller lot h = inl (confirm_keeps f c rules seller lot h)

pub freeze_row-Unsplit :
    (f : FreezeFaults) (c : Bool) (rules : Rules) (user : ℕ) (row : Option Auction) (lot : Lot)
    → lot.auction ≡ row
    → Unsplit lot
    → Unsplit (freeze_locked f c rules user row lot).1
unfolding freeze_locked
freeze_row-Unsplit f c rules user none lot e h = h
freeze_row-Unsplit f c rules user (some cur) lot e h = elim (Bool-cases (is_draft cur.status)) [
  | inl d ↦ ground (arith, h, confirmed f c rules cur.seller_id lot (draft_row lot.auction cur e d))
  | inr d ↦ ground (arith, h, d)
]

-- What the script leaves of the status.
cancel_status :
    (caller now : ℕ) (r : Room)
    → ((cancel_auction caller now r).1.state.status ≡ r.state.status)
      ⊎ ((cancel_auction caller now r).1.state.status ≡ cancelled)
unfolding cancel_auction
cancel_status caller now r = ground arith

-- A cancel that the script accepts leaves the room cancelled.
pub cancel_auction-cancels :
    (caller now seq : ℕ) (e : AuctionCancelledData) (r : Room)
    → (cancel_auction caller now r).0 ≡ ok_cancelled seq e
    → (cancel_auction caller now r).1.state.status ≡ cancelled
unfolding cancel_auction
cancel_auction-cancels caller now seq e r h = ground (arith, h)

room_keeps :
    (caller now : ℕ) (r : Room)
    → room_cancelled r.state.status ≡ true
    → room_cancelled (cancel_auction caller now r).1.state.status ≡ true
unfolding room_cancelled
room_keeps caller now r h = elim (cancel_status caller now r) [
  | inl e ↦ ap (λ s. room_cancelled s) e ∙ h
  | inr e ↦ ap (λ s. room_cancelled s) e
]

run_room :
    (user now : ℕ) (lot : Lot)
    → Unsplit lot
    → Unsplit (record lot { room = (cancel_auction user now lot.room).1 })
unfolding Unsplit
run_room user now lot (inl h) = inl h
run_room user now lot (inr h) = inr (room_keeps user now lot.room h)

after_cancel-Unsplit :
    (f : CancelFaults) (reply : CancelReply) (lot : Lot)
    → Unsplit lot
    → ((seq : ℕ) (e : AuctionCancelledData)
        → reply ≡ ok_cancelled seq e
        → lot.room.state.status ≡ cancelled)
    → Unsplit (after_cancel f reply lot).1
unfolding after_cancel Unsplit store_write set_status room_cancelled
after_cancel-Unsplit f (ok_cancelled seq e) lot h g = inr (ground (arith, g seq e refl))
after_cancel-Unsplit f cancel_not_allowed lot h g = h
after_cancel-Unsplit f cancel_key_type lot h g = h
after_cancel-Unsplit f cancel_seq_mismatch lot h g = h
after_cancel-Unsplit f cancel_script_error lot h g = h
after_cancel-Unsplit f (cancel_already_terminal s) lot h g = h

pub lua_cancel-Unsplit :
    (f : CancelFaults) (user now : ℕ) (lot : Lot)
    → Unsplit lot
    → Unsplit (lua_cancel f user now lot).1
unfolding lua_cancel lua_reply
lua_cancel-Unsplit f user now lot h =
    let run : Lot = record lot { room = (cancel_auction user now lot.room).1 } in
    ground (
      arith,
      h,
      run_room user now lot h,
      after_cancel-Unsplit f (cancel_auction user now lot.room).0 run (run_room user now lot h)
          (λ seq e g. cancel_auction-cancels user now seq e lot.room g),
    )

cancel_draft-Unsplit :
    (f : CancelFaults) (lot : Lot)
    → Unsplit lot
    → no_redis_state lot.room.state.status ≡ true
    → Unsplit (cancel_draft f lot).1
unfolding cancel_draft store_write Unsplit no_redis_state room_cancelled set_status
cancel_draft-Unsplit f lot h g = inr (ground (arith, g))

pub cancel_row-Unsplit :
    (f : CancelFaults) (user : ℕ) (row : Option Auction) (lot : Lot)
    → Unsplit lot
    → Unsplit (cancel_locked f user (λ l. l) row lot).1
unfolding cancel_locked
cancel_row-Unsplit f user none lot h = h
cancel_row-Unsplit f user (some cur) lot h =
    elim (Bool-cases (no_redis_state lot.room.state.status)) [
      | inl d ↦ ground (arith, h, cancel_draft-Unsplit f lot h d)
      | inr d ↦ ground (arith, h, d)
    ]
