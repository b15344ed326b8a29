-- ===== src/Server/Rest/Sections.antt =====
-- The sections of the sellers' handlers that interleave: freezeLocked and cancelLocked are the bodies
-- of the transition lock in apps/lumen/internal/server/api.go, the rest takes no lock.
use live_auction_system.Prelude.{
  ℕ, Bool, true, Option, none, some, ◌≡◌, refl, ap, ◌∙◌, inl, inr, arith, List, [], ◌∷◌,
}
use live_auction_system.Prelude.Int.{ℤ}
use live_auction_system.Model.Status.{live}
use live_auction_system.Model.Rules.{Rules, RuleError, validate}
use live_auction_system.Engine.Room.{Room}
use live_auction_system.Engine.Lifecycle.{start_auction}
use live_auction_system.Store.Orders.{Write, write_ok, write_failed, write_lost}
use live_auction_system.Server.Rest.{Auction, Lot, store_write, set_status}
use live_auction_system.Server.Rest.Freeze.{FreezeFaults, freeze_locked}
use live_auction_system.Server.Rest.Cancel.{CancelFaults, cancel_locked, lua_cancel}
use live_auction_system.Server.Rest.Edit.{
  PatchFaults, PatchBody, malformed_body, malformed_rules, no_rules, patch_body, patch_rules,
  update_rules, overlay, answer_update, with_price, write_rules, write_price, update_validated,
  UpdateResult, rules_updated, rules_not_found, rules_error, stored_rules,
}
use live_auction_system.Server.Rest.Split.{
  Unsplit, row_cancelled, room_cancelled, freeze_row-Unsplit, cancel_row-Unsplit,
  lua_cancel-Unsplit, is_cancelled,
}

-- A section of a request that has passed `ownsAuction`.
pub data Section : Type 0 where
  freeze_section : FreezeFaults → Bool → Rules → ℕ → Section
  cancel_section : CancelFaults → ℕ → Section
  cancel_script : CancelFaults → ℕ → ℕ → Section
  start_script : ℕ → ℕ → Section
  start_status : Write → Section
  patch_section : PatchFaults → PatchBody → Rules → Section

unfoldable pub run_section : Section → Lot → Lot
unfolding freeze_locked cancel_locked lua_cancel start_auction store_write set_status patch_rules
run_section (freeze_section f confirmed rules user) lot =
    (freeze_locked f confirmed rules user lot.auction lot).1
run_section (cancel_section f user) lot = (cancel_locked f user (λ l. l) lot.auction lot).1
run_section (cancel_script f user now) lot = (lua_cancel f user now lot).1
run_section (start_script duration_ms now) lot = record lot {
  room = (start_auction duration_ms now lot.room).1;
}
run_section (start_status w) lot = (store_write w lot (set_status live lot)).1
run_section (patch_section f body rules) lot = (patch_rules f body rules lot).1

unfoldable pub run_sections : List Section → Lot → Lot
unfolding run_section
run_sections [] lot = lot
run_sections (s ∷ sections) lot = run_sections sections (run_section s lot)

start_script_keeps :
    (ms now : ℕ) (r : Room)
    → room_cancelled r.state.status ≡ true
    → room_cancelled (start_auction ms now r).1.state.status ≡ true
unfolding start_auction room_cancelled
start_script_keeps ms now r h = ground (arith, h)

price_keeps :
    (price : ℤ) (row : Option Auction) → row_cancelled (with_price price row) ≡ row_cancelled row
unfolding row_cancelled with_price
price_keeps price none = refl
price_keeps price (some a) = ground arith

write_rules_keeps :
    (w : Write) (r : Rules) (lot : Lot)
    → ((write_rules w r lot).1.auction ≡ lot.auction) × ((write_rules w r lot).1.room ≡ lot.room)
unfolding write_rules store_write
write_rules_keeps w r lot = ground arith

write_price_keeps :
    (w : Write) (price : ℤ) (lot : Lot)
    → (row_cancelled (write_price w price lot).auction ≡ row_cancelled lot.auction)
      × ((write_price w price lot).room ≡ lot.room)
unfolding write_price store_write
write_price_keeps w price lot = ground (arith, price_keeps price lot.auction)

validated_keeps :
    (e : Option RuleError) (first second : Write) (r : Rules) (lot : Lot)
    → (row_cancelled (update_validated e first second r lot).1.auction ≡ row_cancelled lot.auction)
      × ((update_validated e first second r lot).1.room ≡ lot.room)
unfolding update_validated
validated_keeps (some e) first second r lot = (refl, refl)
validated_keeps none first second r lot = ground (
  arith,
  write_rules_keeps first (stored_rules r) lot,
  write_price_keeps second r.start_price_cents (write_rules first (stored_rules r) lot).1,
)

answer_keeps : (x : UpdateResult × Lot) → (answer_update x).1 ≡ x.1
unfolding answer_update
answer_keeps (rules_updated, lot) = refl
answer_keeps (rules_not_found, lot) = refl
answer_keeps (rules_error, lot) = refl

patch_rules_keeps :
    (f : PatchFaults) (body : PatchBody) (rules : Rules) (lot : Lot)
    → (row_cancelled (patch_rules f body rules lot).1.auction ≡ row_cancelled lot.auction)
      × ((patch_rules f body rules lot).1.room ≡ lot.room)
unfolding patch_rules update_rules
patch_rules_keeps f malformed_body rules lot = (refl, refl)
patch_rules_keeps f malformed_rules rules lot = (refl, refl)
patch_rules_keeps f no_rules rules lot =
    let x = update_rules f.first f.second rules lot in
    let g = validated_keeps (validate rules) f.first f.second rules lot in
    (
      ap (λ l. row_cancelled l.auction) (answer_keeps x) ∙ g.0,
      ap (λ l. l.room) (answer_keeps x) ∙ g.1,
    )
patch_rules_keeps f (patch_body p) rules lot =
    let x = update_rules f.first f.second (overlay p rules) lot in
    let g = validated_keeps (validate (overlay p rules)) f.first f.second (overlay p rules) lot in
    (
      ap (λ l. row_cancelled l.auction) (answer_keeps x) ∙ g.0,
      ap (λ l. l.room) (answer_keeps x) ∙ g.1,
    )

start_script-Unsplit :
    (ms now : ℕ) (lot : Lot)
    → Unsplit lot
    → Unsplit (record lot { room = (start_auction ms now lot.room).1 })
unfolding Unsplit
start_script-Unsplit ms now lot (inl h) = inl h
start_script-Unsplit ms now lot (inr h) = inr (start_script_keeps ms now lot.room h)

live-Unsplit : (lot : Lot) → Unsplit (set_status live lot)
unfolding Unsplit set_status row_cancelled is_cancelled
live-Unsplit lot = inl (ground arith)

start_status-Unsplit :
    (w : Write) (lot : Lot) → Unsplit lot → Unsplit (store_write w lot (set_status live lot)).1
unfolding store_write
start_status-Unsplit write_ok lot h = live-Unsplit lot
start_status-Unsplit write_failed lot h = h
start_status-Unsplit write_lost lot h = live-Unsplit lot

patch-Unsplit :
    (f : PatchFaults) (body : PatchBody) (rules : Rules) (lot : Lot)
    → Unsplit lot
    → Unsplit (patch_rules f body rules lot).1
unfolding Unsplit
patch-Unsplit f body rules lot (inl h) = inl ((patch_rules_keeps f body rules lot).0 ∙ h)
patch-Unsplit f body rules lot (inr h) =
    inr (ap (λ r. room_cancelled r.state.status) (patch_rules_keeps f body rules lot).1 ∙ h)

run_section-Unsplit : (s : Section) (lot : Lot) → Unsplit lot → Unsplit (run_section s lot)
unfolding run_section
run_section-Unsplit (freeze_section f c rules user) lot h =
    freeze_row-Unsplit f c rules user lot.auction lot refl h
run_section-Unsplit (cancel_section f user) lot h = cancel_row-Unsplit f user lot.auction lot h
run_section-Unsplit (cancel_script f user now) lot h = lua_cancel-Unsplit f user now lot h
run_section-Unsplit (start_script ms now) lot h = start_script-Unsplit ms now lot h
run_section-Unsplit (start_status w) lot h = start_status-Unsplit w lot h
run_section-Unsplit (patch_section f body rules) lot h = patch-Unsplit f body rules lot h

-- Sellers freeze, start, edit and cancel, their calls fail or lose replies, and the sections
-- interleave in any order: if MySQL never says CANCELLED of an auction that Redis holds as scheduled,
-- running or sold, it does not afterwards.
pub run_sections-Unsplit :
    (sections : List Section) (lot : Lot) → Unsplit lot → Unsplit (run_sections sections lot)
unfolding run_sections
run_sections-Unsplit [] lot h = h
run_sections-Unsplit (s ∷ sections) lot h =
    run_sections-Unsplit sections (run_section s lot) (run_section-Unsplit s lot h)
