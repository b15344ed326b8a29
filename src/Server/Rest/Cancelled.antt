-- ===== src/Server/Rest/Cancelled.antt =====
-- What an accepted cancel has done, `handleCancel` of apps/lumen/internal/server/api.go.
use live_auction_system.Prelude.{
  ℕ, true, Option, none, some, ◌≡◌, refl, sym, ap, ◌∙◌, ◌⊎◌, inl, inr, arith, ltb,
}
use mathlib.Core.Path.{subst}
use live_auction_system.Model.Status.{cancelled}
use live_auction_system.Model.Events.{AuctionCancelledData}
use live_auction_system.Engine.Lifecycle.{
  cancel_auction, CancelReply, ok_cancelled, cancel_not_allowed, cancel_key_type,
  cancel_seq_mismatch, cancel_script_error, cancel_already_terminal,
}
use live_auction_system.Store.Orders.{Write, write_ok, write_failed, write_lost}
use live_auction_system.Server.Rest.{
  Auction, Lot, code_ok_cancelled, ok, store_write, set_status, Owned, refused, owned, owns_auction,
}
use live_auction_system.Server.Rest.Cancel.{
  CancelFaults, handle_cancel, cancel_owned, cancel_locked, lua_cancel, lua_reply, after_cancel,
  finish_cancel, LocalCancel, answered, use_lua_cancel, cancel_draft, row_is_draft, no_redis_state,
}
use live_auction_system.Server.Rest.Freeze.{is_draft}
use live_auction_system.Server.Rest.Split.{row_cancelled, is_cancelled, cancel_auction-cancels}
use live_auction_system.Server.Rest.Patched.{refusal_http, owns_http}

-- Redis says CANCELLED; or MySQL does, Redis had no state when it was asked under the lock, the row was
-- still a DRAFT at the compare-and-set, and what Redis then held is as it was. `seen` is the lot when the
-- lock was asked for, and `current` the lot at the compare-and-set.
unfoldable pub IsCancelled : Lot → Lot → Lot → Type 0
IsCancelled seen current lot =
    (lot.room.state.status ≡ cancelled)
    ⊎ ((row_cancelled lot.auction ≡ true)
        × ((no_redis_state seen.room.state.status ≡ true)
            × ((row_is_draft current.auction ≡ true) × (lot.room ≡ current.room))))

after_sound :
    (f : CancelFaults) (reply : CancelReply) (seen current lot : Lot)
    → ((seq : ℕ) (e : AuctionCancelledData)
        → reply ≡ ok_cancelled seq e
        → lot.room.state.status ≡ cancelled)
    → (after_cancel f reply lot).0 ≡ ok code_ok_cancelled
    → IsCancelled seen current (after_cancel f reply lot).1
unfolding after_cancel IsCancelled store_write set_status
after_sound f (ok_cancelled seq e) seen current lot g h = inl (ground (arith, g seq e refl))
after_sound f cancel_not_allowed seen current lot g h = absurd (ground (arith, h))
after_sound f cancel_key_type seen current lot g h = absurd (ground (arith, h))
after_sound f cancel_seq_mismatch seen current lot g h = absurd (ground (arith, h))
after_sound f cancel_script_error seen current lot g h = absurd (ground (arith, h))
after_sound f (cancel_already_terminal s) seen current lot g h = absurd (ground (arith, h))

script_sound :
    (w : Write) (f : CancelFaults) (user now : ℕ) (seen current lot : Lot)
    → f.script ≡ w
    → (lua_cancel f user now lot).0 ≡ ok code_ok_cancelled
    → IsCancelled seen current (lua_cancel f user now lot).1
unfolding lua_cancel lua_reply
script_sound write_ok f user now seen current lot e h =
    let run : Lot = record lot { room = (cancel_auction user now lot.room).1 } in
    let q : lua_cancel f user now lot ≡ after_cancel f (cancel_auction user now lot.room).0 run =
      ap (λ w. lua_reply w f (cancel_auction user now lot.room).0 lot run) e in
    subst (λ x. IsCancelled seen current x.1) (sym q)
      (after_sound f (cancel_auction user now lot.room).0 seen current run
        (λ seq k g. cancel_auction-cancels user now seq k lot.room g) (ap (λ x. x.0) (sym q) ∙ h))
script_sound write_failed f user now seen current lot e h = absurd (ground (arith, h, e))
script_sound write_lost f user now seen current lot e h = absurd (ground (arith, h, e))

draft_sound :
    (f : CancelFaults) (lot : Lot)
    → (cancel_draft f lot).0 ≡ answered (ok code_ok_cancelled)
    → (row_cancelled (cancel_draft f lot).1.auction ≡ true)
      × ((row_is_draft lot.auction ≡ true) × ((cancel_draft f lot).1.room ≡ lot.room))
unfolding cancel_draft store_write set_status row_is_draft row_cancelled is_cancelled is_draft
draft_sound f lot h = ground (arith, h)

locked_draft :
    (f : CancelFaults) (user : ℕ) (meanwhile : Lot → Lot) (cur : Auction) (lot : Lot)
    → (cancel_locked f user meanwhile (some cur) lot).0 ≡ answered (ok code_ok_cancelled)
    → (cancel_locked f user meanwhile (some cur) lot ≡ cancel_draft f (meanwhile lot))
      × (no_redis_state lot.room.state.status ≡ true)
unfolding cancel_locked
locked_draft f user meanwhile cur lot h = ground (arith, h)

locked_sound :
    (f : CancelFaults) (user : ℕ) (meanwhile : Lot → Lot) (row : Option Auction) (lot : Lot)
    → (cancel_locked f user meanwhile row lot).0 ≡ answered (ok code_ok_cancelled)
    → IsCancelled lot (meanwhile lot) (cancel_locked f user meanwhile row lot).1
unfolding IsCancelled cancel_locked
locked_sound f user meanwhile none lot h = absurd (ground (arith, h))
locked_sound f user meanwhile (some cur) lot h =
    let (q, unknown) = locked_draft f user meanwhile cur lot h in
    let (gone, (was_draft, same)) = draft_sound f (meanwhile lot) (ap (λ x. x.0) (sym q) ∙ h) in
    inr (
      ap (λ x. row_cancelled x.1.auction) q ∙ gone,
      (unknown, (was_draft, ap (λ x. x.1.room) q ∙ same)),
    )

finish_sound :
    (f : CancelFaults) (user now : ℕ) (x : LocalCancel) (seen current lot : Lot)
    → (x ≡ answered (ok code_ok_cancelled) → IsCancelled seen current lot)
    → (finish_cancel f user now x lot).0 ≡ ok code_ok_cancelled
    → IsCancelled seen current (finish_cancel f user now x lot).1
unfolding finish_cancel
finish_sound f user now (answered a) seen current lot g h = g (ap (λ b. answered b) h)
finish_sound f user now use_lua_cancel seen current lot g h =
    script_sound f.script f user now seen current lot refl h

-- The ways through `handleCancel` that can end in OK_CANCELLED.
ways :
    (f : CancelFaults) (user now : ℕ) (between meanwhile : Lot → Lot) (a : Auction) (lot : Lot)
    → (cancel_owned f user now between meanwhile (owned a) lot).0 ≡ ok code_ok_cancelled
    → (cancel_owned f user now between meanwhile (owned a) lot
        ≡ lua_cancel f user now (between lot))
      ⊎ (cancel_owned f user now between meanwhile (owned a) lot
          ≡ finish_cancel f user now
              (cancel_locked f user meanwhile (between lot).auction (between lot)).0
              (cancel_locked f user meanwhile (between lot).auction (between lot)).1)
unfolding cancel_owned
ways f user now between meanwhile a lot h = ground (arith, h)

owned_sound :
    (f : CancelFaults) (user now : ℕ) (between meanwhile : Lot → Lot) (o : Owned) (lot : Lot)
    → refusal_http o ≡ true
    → (cancel_owned f user now between meanwhile o lot).0 ≡ ok code_ok_cancelled
    → IsCancelled
        (between lot)
        (meanwhile (between lot))
        (cancel_owned f user now between meanwhile o lot).1
unfolding refusal_http cancel_owned
owned_sound f user now between meanwhile (refused x) lot g h =
    absurd (ground (arith, ap (λ a. ltb 399 a.http) h, g))
owned_sound f user now between meanwhile (owned a) lot g h =
    let seen = between lot in
    let current = meanwhile seen in
    let section = cancel_locked f user meanwhile seen.auction seen in
    elim (ways f user now between meanwhile a lot h) [
      | inl q ↦
          subst (λ x. IsCancelled seen current x.1) (sym q)
            (script_sound f.script f user now seen current seen refl (ap (λ x. x.0) (sym q) ∙ h))
      | inr q ↦
          subst (λ x. IsCancelled seen current x.1) (sym q)
            (finish_sound f user now section.0 seen current section.1
              (λ e. locked_sound f user meanwhile seen.auction seen e) (ap (λ x. x.0) (sym q) ∙ h))
    ]

-- A cancel that is answered with OK_CANCELLED has left the auction CANCELLED in Redis; or in MySQL, where
-- the row was still a DRAFT at the compare-and-set and Redis had no state of the auction when it was
-- asked under the lock, and then it leaves Redis alone. This is so whatever others did meanwhile and
-- whichever later calls failed.
pub handle_cancel-IsCancelled :
    (f : CancelFaults) (now : ℕ) (between meanwhile : Lot → Lot) (user : ℕ) (lot : Lot)
    → (handle_cancel f now between meanwhile (some user) lot).0 ≡ ok code_ok_cancelled
    → IsCancelled
        (between lot)
        (meanwhile (between lot))
        (handle_cancel f now between meanwhile (some user) lot).1
unfolding handle_cancel
handle_cancel-IsCancelled f now between meanwhile user lot h =
    owned_sound f user now between meanwhile (owns_auction f.owner_fails user lot) lot
      (owns_http f.owner_fails user lot) h
