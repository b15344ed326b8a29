-- ===== src/Server/Rest/Tests.antt =====
-- Requests of the sellers of apps/lumen/internal/server/api.go.
use live_auction_system.Prelude.{true, false, none, some, List, [], ◌∷◌, ◌==◌, ltb, ◌≡◌, refl, inl}
use live_auction_system.Prelude.Int.{pos, ◌-ℤ◌}
use live_auction_system.Model.Status.{missing, draft, scheduled}
use live_auction_system.Model.Mode.{english, valid_mode}
use live_auction_system.Model.Rules.{Rules, validate}
use live_auction_system.Engine.PlaceBid.Samples.{fresh_room}
use live_auction_system.Engine.Lifecycle.{frozen_state}
use live_auction_system.Store.Orders.{write_ok, write_failed, write_lost}
use live_auction_system.Server.Rest.{Auction, Lot, not_found}
use live_auction_system.Server.Rest.Freeze.{freeze_body, start_duration_ms}
use live_auction_system.Server.Rest.Cancel.{CancelFaults, handle_cancel}
use live_auction_system.Server.Rest.Edit.{
  PatchFaults, RulesPatch, patch_body, no_rules, handle_patch_auction, is_editable,
}
use live_auction_system.Server.Rest.Guard.{
  freezes, handle_request, is_seller, handle_request-Refuses,
}
use live_auction_system.Server.Rest.Split.{Unsplit, row_cancelled}
use live_auction_system.Server.Rest.Sections.{
  Section, freeze_section, cancel_section, cancel_script, start_script, run_sections,
  run_sections-Unsplit,
}
use live_auction_system.Server.Rest.Outcome.{no_freeze_faults}
use live_auction_system.Server.Rest.Patched.{
  Patch-of, merged, handle_patch_auction-Patch-of, patch_same-not_found, is_decoded,
}
use live_auction_system.Server.Rest.Cancelled.{IsCancelled, handle_cancel-IsCancelled}

abbrev lot_rules : Rules
lot_rules = record {
  mode = english;
  start_price_cents = pos 1000;
  increment_cents = pos 100;
  cap_price_cents = pos 0;
  duration_sec = pos 300;
  extend_window_sec = pos 10;
  extend_sec = pos 15;
  max_extensions = pos 3;
  live_play_url = 0;
  live_stream_key = 0;
}

abbrev draft_row : Auction
draft_row = record {
  product_id = 5;
  seller_id = 7;
  status = draft;
  facts_confirmed = true;
  current_price_cents = pos 1000;
}

-- A DRAFT that Redis does not know.
abbrev draft_lot : Lot
draft_lot = record {
  auction = some draft_row;
  rules = some lot_rules;
  room = record fresh_room { state = record fresh_room.state { status = missing } };
  tracked = false;
}

-- The minutes of the rules.
five_minutes : start_duration_ms false (some lot_rules) (pos 0) ≡ pos 300000
unfolding start_duration_ms
five_minutes = refl

-- User 9 freezes the auction of user 7.
handle_request-Refuses_example :
    ((handle_request (freezes no_freeze_faults (freeze_body true) (λ l. l)) (some 9) draft_lot).1
      ≡ draft_lot)
    × (ltb 399
          (handle_request
            (freezes no_freeze_faults (freeze_body true) (λ l. l))
            (some 9)
            draft_lot).0.http
        ≡ true)
unfolding is_seller
handle_request-Refuses_example =
    handle_request-Refuses (freezes no_freeze_faults (freeze_body true) (λ l. l)) (some 9) draft_lot
      refl

abbrev no_cancel_faults : CancelFaults
no_cancel_faults = record {
  owner_fails = false;
  lock_fails = false;
  row_fails = false;
  snapshot_fails = false;
  compare_and_set = write_ok;
  script = write_ok;
  untrack_fails = false;
  status = write_ok;
}

-- A freeze whose write of the status fails, a cancel of the DRAFT that finds Redis frozen, the script
-- with its write of the status lost, and a start that comes too late.
abbrev race : List Section
race =
    freeze_section (record no_freeze_faults { status = write_failed }) false lot_rules 7
    ∷ cancel_section no_cancel_faults 7
    ∷ cancel_script (record no_cancel_faults { status = write_lost }) 7 2000
    ∷ start_script 60000 2001
    ∷ []

run_sections-Unsplit_example : Unsplit (run_sections race draft_lot)
unfolding Unsplit row_cancelled
run_sections-Unsplit_example = run_sections-Unsplit race draft_lot (inl refl)

-- The cancel of the DRAFT, with the room missing in Redis.
handle_cancel-IsCancelled_example :
    IsCancelled draft_lot draft_lot
      (handle_cancel no_cancel_faults 2000 (λ l. l) (λ l. l) (some 7) draft_lot).1
unfolding handle_cancel
handle_cancel-IsCancelled_example =
    handle_cancel-IsCancelled no_cancel_faults 2000 (λ l. l) (λ l. l) 7 draft_lot refl

abbrev no_patch_faults : PatchFaults
no_patch_faults = record {
  owner_fails = false;
  rules_fail = false;
  first = write_ok;
  second = write_ok;
}

-- A request for another start price.
abbrev new_price : RulesPatch
new_price = record {
  mode = none;
  start_price_cents = some (pos 5000);
  increment_cents = none;
  cap_price_cents = none;
  duration_sec = none;
  extend_window_sec = none;
  extend_sec = none;
  max_extensions = none;
  live_play_url = none;
  live_stream_key = none;
}

-- The auction after a freeze.
abbrev frozen_lot : Lot
frozen_lot = record draft_lot {
  auction = some (record draft_row { status = scheduled });
  room = record fresh_room { state = frozen_state lot_rules 7 fresh_room.state };
}

-- The request for the frozen auction is accepted, and Redis keeps the old start price.
handle_patch_auction-Patch-of_example :
    (a : Auction) × ((frozen_lot.auction ≡ some a)
      × (((a.seller_id == 7) ≡ true)
          × ((is_editable a.status ≡ true)
              × ((old : Rules) × ((frozen_lot.rules ≡ some old)
                    × Patch-of
                        (patch_body new_price)
                        old
                        frozen_lot
                        (handle_patch_auction no_patch_faults
                          (patch_body new_price)
                          (some 7)
                          frozen_lot).1)))))
unfolding handle_patch_auction valid_mode ◌-ℤ◌
handle_patch_auction-Patch-of_example =
    handle_patch_auction-Patch-of no_patch_faults (patch_body new_price) 7 frozen_lot refl

patch_same-not_found_example :
    handle_patch_auction no_patch_faults no_rules (some 7) draft_lot ≡ (not_found, draft_lot)
unfolding validate merged valid_mode ◌-ℤ◌ is_editable is_decoded
patch_same-not_found_example =
    patch_same-not_found no_patch_faults no_rules 7 draft_lot draft_row lot_rules refl refl refl
      refl refl refl refl refl refl refl refl
