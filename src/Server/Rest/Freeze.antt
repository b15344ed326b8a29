-- ===== src/Server/Rest/Freeze.antt =====
-- `handleFreeze` and `handleStart` of apps/lumen/internal/server/api.go.
use live_auction_system.Prelude.{
  ℕ, suc, ◌*◌, ◌-◌, ◌%◌, ltb, Bool, true, false, ◌&&◌, ◌||◌, not, Option, none, some, if◌then◌else◌,
  ◌==◌,
}
use live_auction_system.Prelude.Int.{ℤ, pos, negsuc, ltb_ℤ, pos_part}
use live_auction_system.Model.Status.{Status, draft, scheduled, live, is_terminal}
use live_auction_system.Model.Rules.{Rules}
use live_auction_system.Engine.Lifecycle.{
  freeze_rules, FreezeReply, ok_frozen, freeze_bad_key_type, freeze_bad_state, start_auction,
  StartReply, ok_live, start_bad_key_type, start_bad_state,
}
use live_auction_system.Engine.Room.{Room}
use live_auction_system.Store.Orders.{Write, write_ok, write_failed, write_lost}
use live_auction_system.Server.Rest.{
  Auction, Lot, code_ok_frozen, code_ok_live, err_not_allowed, err_already_terminal, err_bad_state,
  err_facts_not_confirmed, Answer, internal_server_error, conflict, unauthorized, not_found,
  bad_request, ok, Owned, refused, owned, owns_auction, store_write, set_status, answer_write,
}

-- The outcome of each call of `handleFreeze`.
pub record FreezeFaults : Type 0 where
  pub owner_fails : Bool
  pub rules_fail : Bool
  pub lock_fails : Bool
  pub row_fails : Bool
  pub facts : Write
  pub script : Write
  pub status : Write

-- The body of the request: no JSON, or whether it has confirmed facts.
pub data FreezeBody : Type 0 where
  malformed_body : FreezeBody
  freeze_body : Bool → FreezeBody

unfoldable pub is_draft : Status → Bool
is_draft draft = true
is_draft _ = false

-- `UpdateConfirmedFacts`
abbrev pub confirm_facts : Option Auction → Option Auction
confirm_facts none = none
confirm_facts (some a) = some (record a { facts_confirmed = true })

-- The code of the script's reply, and the status in MySQL where it froze.
unfoldable pub after_freeze : Write → FreezeReply → Lot → Answer × Lot
unfolding store_write set_status answer_write
after_freeze status ok_frozen lot =
    answer_write (ok code_ok_frozen) (store_write status lot (set_status scheduled lot))
after_freeze status freeze_bad_key_type lot = (conflict err_bad_state, lot)
after_freeze status (freeze_bad_state s) lot = (conflict err_bad_state, lot)

-- `FreezeRules` and what follows; a reply that is lost answers 500.
unfoldable pub run_freeze : FreezeFaults → Rules → ℕ → Lot → Answer × Lot
unfolding freeze_rules after_freeze
run_freeze f rules seller lot =
    let reply = freeze_rules rules seller lot.room in
    let frozen : Lot = record lot { room = reply.1 } in
    elim f.script [
      | write_ok ↦ after_freeze f.status reply.0 frozen
      | write_failed ↦ (internal_server_error, lot)
      | write_lost ↦ (internal_server_error, frozen)
    ]

-- An UPDATE that counts no row is ErrNotFound; `updated_at` changes in every row that is there.
unfoldable pub found_row : Option Auction → Bool × Lot → Bool × Lot
found_row none (nil, lot) = (false, lot)
found_row (some a) (nil, lot) = (nil, lot)

unfoldable pub write_facts : Write → Lot → Bool × Lot
unfolding store_write found_row
write_facts w lot =
    found_row lot.auction (store_write w lot (record lot { auction = confirm_facts lot.auction }))

-- The confirmed facts of the body, and then the script.
unfoldable pub confirm_then_freeze : FreezeFaults → Bool → Rules → ℕ → Lot → Answer × Lot
unfolding run_freeze write_facts
confirm_then_freeze f confirmed rules seller lot =
    let facts = write_facts f.facts lot in
    if confirmed
    then (if facts.0 then run_freeze f rules seller facts.1 else (internal_server_error, facts.1))
    else run_freeze f rules seller lot

-- The section of `handleFreeze` under the transition lock, on the row that is read again.
unfoldable pub freeze_locked : FreezeFaults → Bool → Rules → ℕ → Option Auction → Lot → Answer × Lot
unfolding is_terminal is_draft confirm_then_freeze
freeze_locked f confirmed rules user none lot = (internal_server_error, lot)
freeze_locked f confirmed rules user (some cur) lot =
    if not (cur.seller_id == user)
    then (conflict err_not_allowed, lot)
    else if is_terminal cur.status
    then (conflict err_already_terminal, lot)
    else if not (is_draft cur.status)
    then (conflict err_bad_state, lot)
    else if not cur.facts_confirmed
    then (conflict err_facts_not_confirmed, lot)
    else confirm_then_freeze f confirmed rules cur.seller_id lot

-- `WithAuctionTransitionLock` around it. `between` is what others do before the lock is taken.
unfoldable pub freeze_with_lock :
    FreezeFaults → Bool → ℕ → (Lot → Lot) → Option Rules → Lot → Answer × Lot
unfolding freeze_locked
freeze_with_lock f confirmed user between none lot = (not_found, lot)
freeze_with_lock f confirmed user between (some rules) lot =
    let seen = between lot in
    if f.rules_fail
    then (not_found, lot)
    else if f.lock_fails || f.row_fails
    then (internal_server_error, seen)
    else freeze_locked f confirmed rules user seen.auction seen

-- `handleFreeze` after `ownsAuction`.
unfoldable pub freeze_owned : FreezeFaults → Bool → ℕ → (Lot → Lot) → Owned → Lot → Answer × Lot
unfolding freeze_with_lock
freeze_owned f confirmed user between (refused a) lot = (a, lot)
freeze_owned f confirmed user between (owned a) lot =
    if a.facts_confirmed
    then freeze_with_lock f confirmed user between lot.rules lot
    else (conflict err_facts_not_confirmed, lot)

-- `handleFreeze`; the user is `none` where the token is not valid.
unfoldable pub handle_freeze :
    FreezeFaults → FreezeBody → (Lot → Lot) → Option ℕ → Lot → Answer × Lot
unfolding owns_auction freeze_owned
handle_freeze f body between none lot = (unauthorized, lot)
handle_freeze f malformed_body between (some user) lot = (bad_request, lot)
handle_freeze f (freeze_body confirmed) between (some user) lot =
    freeze_owned f confirmed user between (owns_auction f.owner_fails user lot) lot

-- The outcome of each call of `handleStart`.
pub record StartFaults : Type 0 where
  pub owner_fails : Bool
  pub rules_fail : Bool
  pub script : Write
  pub track_fails : Bool
  pub status : Write

-- The int64 that a product wraps around to.
unfoldable pub wrap_int64 : ℕ → ℤ
wrap_int64 n =
    if ltb (n % 18446744073709551616) 9223372036854775808
    then pos (n % 18446744073709551616)
    else negsuc (18446744073709551615 - n % 18446744073709551616)

-- The duration: the body's, else the rules' as an int64, else a minute.
unfoldable pub rules_duration_ms : Bool → Option Rules → ℤ
unfolding wrap_int64
rules_duration_ms fails none = pos 60000
rules_duration_ms fails (some r) =
    if not fails && ltb_ℤ (pos 0) r.duration_sec
    then wrap_int64 (pos_part r.duration_sec * 1000)
    else pos 60000

unfoldable pub start_duration_ms : Bool → Option Rules → ℤ → ℤ
unfolding rules_duration_ms
start_duration_ms fails rules body_ms =
    if ltb_ℤ (pos 0) body_ms then body_ms else rules_duration_ms fails rules

-- start_auction.lua with a duration that may be negative: it reads the time only for the end, which is
-- then before now. An end before 1970 is 0 here.
unfoldable pub run_start : ℤ → ℕ → Room → StartReply × Room
unfolding start_auction
run_start (pos duration_ms) now r = start_auction duration_ms now r
run_start (negsuc k) now r = start_auction 0 (now - suc k) r

-- `StartAuction` has registered a room that it started, unless the ZADD fails; then the status in
-- MySQL. `between` is what others do before that write.
unfoldable pub after_start : StartFaults → (Lot → Lot) → StartReply → Lot → Answer × Lot
unfolding store_write set_status answer_write
after_start f between (ok_live end_at_ms) lot =
    let seen = between (record lot { tracked = if f.track_fails then lot.tracked else true }) in
    answer_write (ok code_ok_live) (store_write f.status seen (set_status live seen))
after_start f between start_bad_key_type lot = (conflict err_bad_state, lot)
after_start f between (start_bad_state s) lot = (conflict err_bad_state, lot)

unfoldable pub start_owned : StartFaults → ℤ → ℕ → (Lot → Lot) → Owned → Lot → Answer × Lot
unfolding start_duration_ms run_start after_start
start_owned f body_ms now between (refused a) lot = (a, lot)
start_owned f body_ms now between (owned a) lot =
    let reply = run_start (start_duration_ms f.rules_fail lot.rules body_ms) now lot.room in
    let started : Lot = record lot { room = reply.1 } in
    elim f.script [
      | write_ok ↦ after_start f between reply.0 started
      | write_failed ↦ (internal_server_error, lot)
      | write_lost ↦ (internal_server_error, started)
    ]

-- The answer to a body that is no JSON.
unfoldable pub start_refused : Owned → Lot → Answer × Lot
start_refused (refused a) lot = (a, lot)
start_refused (owned a) lot = (bad_request, lot)

-- `handleStart`; the body is `none` where it is no JSON, else its duration (0 where it has none).
-- `now` is Redis TIME.
unfoldable pub handle_start :
    StartFaults → Option ℤ → ℕ → (Lot → Lot) → Option ℕ → Lot → Answer × Lot
unfolding owns_auction start_owned start_refused
handle_start f body now between none lot = (unauthorized, lot)
handle_start f none now between (some user) lot =
    start_refused (owns_auction f.owner_fails user lot) lot
handle_start f (some body_ms) now between (some user) lot =
    start_owned f body_ms now between (owns_auction f.owner_fails user lot) lot
