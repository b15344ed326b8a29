-- ===== src/Server/Rest/Cancel.antt =====
-- `handleCancel` of apps/lumen/internal/server/api.go.
use live_auction_system.Prelude.{
  ℕ, Bool, true, false, ◌||◌, not, Option, none, some, if◌then◌else◌, ◌==◌,
}
use live_auction_system.Model.Status.{Status, missing, cancelled, is_terminal}
use live_auction_system.Engine.Lifecycle.{
  cancel_auction, CancelReply, ok_cancelled, cancel_not_allowed, cancel_key_type,
  cancel_seq_mismatch, cancel_script_error, cancel_already_terminal,
}
use live_auction_system.Store.Orders.{Write, write_ok, write_failed, write_lost}
use live_auction_system.Server.Rest.{
  Auction, Lot, code_ok_cancelled, err_not_allowed, err_already_terminal, err_internal, Answer,
  internal_server_error, conflict, forbidden, unauthorized, ok, Owned, refused, owned, owns_auction,
  store_write, set_status,
}
use live_auction_system.Server.Rest.Freeze.{is_draft}

-- The outcome of each call of `handleCancel`.
pub record CancelFaults : Type 0 where
  pub owner_fails : Bool
  pub lock_fails : Bool
  pub row_fails : Bool
  pub snapshot_fails : Bool
  pub compare_and_set : Write
  pub script : Write
  pub untrack_fails : Bool
  pub status : Write

-- The section under the transition lock answers, or leaves the cancel to the script.
pub data LocalCancel : Type 0 where
  answered : Answer → LocalCancel
  use_lua_cancel : LocalCancel

-- The snapshot of a room without a state has the empty status.
unfoldable pub no_redis_state : Status → Bool
no_redis_state missing = true
no_redis_state _ = false

-- `WHERE status = 'DRAFT'`
unfoldable pub row_is_draft : Option Auction → Bool
unfolding is_draft
row_is_draft none = false
row_is_draft (some a) = is_draft a.status

-- `UpdateAuctionStatusIf` from DRAFT, and what follows it; an error answers 500.
unfoldable pub cancel_draft : CancelFaults → Lot → LocalCancel × Lot
unfolding store_write set_status row_is_draft
cancel_draft f lot =
    let set =
      store_write f.compare_and_set lot
        (if row_is_draft lot.auction then set_status cancelled lot else lot) in
    if not set.0
    then (answered internal_server_error, set.1)
    else if row_is_draft lot.auction
    then (answered (ok code_ok_cancelled), set.1)
    else (use_lua_cancel, set.1)

-- The section of `handleCancel` under the transition lock, on the row that is read again.
-- `meanwhile` is what others do before the compare-and-set.
unfoldable pub cancel_locked :
    CancelFaults → ℕ → (Lot → Lot) → Option Auction → Lot → LocalCancel × Lot
unfolding is_terminal is_draft no_redis_state cancel_draft
cancel_locked f user meanwhile none lot = (answered internal_server_error, lot)
cancel_locked f user meanwhile (some cur) lot =
    if not (cur.seller_id == user)
    then (answered forbidden, lot)
    else if is_terminal cur.status
    then (answered (conflict err_already_terminal), lot)
    else if not (is_draft cur.status)
    then (use_lua_cancel, lot)
    else if f.snapshot_fails
    then (answered internal_server_error, lot)
    else if no_redis_state lot.room.state.status
    then cancel_draft f (meanwhile lot)
    else (use_lua_cancel, lot)

-- What follows the script: the index, and the status in MySQL, whose failure is only logged.
unfoldable pub after_cancel : CancelFaults → CancelReply → Lot → Answer × Lot
unfolding store_write set_status
after_cancel f (ok_cancelled seq e) lot =
    let untracked : Lot = record lot { tracked = if f.untrack_fails then lot.tracked else false } in
    (ok code_ok_cancelled, (store_write f.status untracked (set_status cancelled untracked)).1)
after_cancel f cancel_not_allowed lot = (conflict err_not_allowed, lot)
after_cancel f cancel_key_type lot = (conflict err_internal, lot)
after_cancel f cancel_seq_mismatch lot = (conflict err_internal, lot)
after_cancel f cancel_script_error lot = (internal_server_error, lot)
after_cancel f (cancel_already_terminal s) lot = (conflict err_already_terminal, lot)

-- The end of the call of the script, on the lot before it and the lot that it leaves.
unfoldable pub lua_reply : Write → CancelFaults → CancelReply → Lot → Lot → Answer × Lot
unfolding after_cancel
lua_reply write_ok f reply lot run = after_cancel f reply run
lua_reply write_failed f reply lot run = (internal_server_error, lot)
lua_reply write_lost f reply lot run = (internal_server_error, run)

-- `CancelAuction` and what follows.
unfoldable pub lua_cancel : CancelFaults → ℕ → ℕ → Lot → Answer × Lot
unfolding cancel_auction lua_reply
lua_cancel f user now lot =
    let reply = cancel_auction user now lot.room in
    lua_reply f.script f reply.0 lot (record lot { room = reply.1 })

-- The cancel of a DRAFT: under the lock, and by the script where that leaves it.
unfoldable pub finish_cancel : CancelFaults → ℕ → ℕ → LocalCancel → Lot → Answer × Lot
unfolding lua_cancel
finish_cancel f user now (answered a) lot = (a, lot)
finish_cancel f user now use_lua_cancel lot = lua_cancel f user now lot

unfoldable pub cancel_owned :
    CancelFaults → ℕ → ℕ → (Lot → Lot) → (Lot → Lot) → Owned → Lot → Answer × Lot
unfolding is_terminal is_draft cancel_locked finish_cancel lua_cancel
cancel_owned f user now between meanwhile (refused a) lot = (a, lot)
cancel_owned f user now between meanwhile (owned a) lot =
    let seen = between lot in
    let section = cancel_locked f user meanwhile seen.auction seen in
    if is_terminal a.status
    then (conflict err_already_terminal, lot)
    else if not (is_draft a.status)
    then lua_cancel f user now seen
    else if f.lock_fails || f.row_fails
    then (internal_server_error, seen)
    else finish_cancel f user now section.0 section.1

-- `handleCancel`. `between` is what others do after `ownsAuction`, `meanwhile` under the lock; `now` is Redis TIME.
unfoldable pub handle_cancel :
    CancelFaults → ℕ → (Lot → Lot) → (Lot → Lot) → Option ℕ → Lot → Answer × Lot
unfolding owns_auction cancel_owned
handle_cancel f now between meanwhile none lot = (unauthorized, lot)
handle_cancel f now between meanwhile (some user) lot =
    cancel_owned f user now between meanwhile (owns_auction f.owner_fails user lot) lot
