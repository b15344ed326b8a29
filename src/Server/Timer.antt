-- ===== src/Server/Timer.antt =====
-- The Timer Worker's index: apps/lumen/internal/server/timer.go, with the index operations of
-- apps/lumen/internal/store/store.go. What CloseAuctionDetailed returns is an argument, and so is
-- whether each write reaches Redis.
pub mod Tracked
mod Tests
use live_auction_system.Prelude.{
  ℕ, ◌+◌, Bool, true, false, ◌&&◌, Option, none, some, if◌then◌else◌, ltb, leb, List, [], ◌∷◌,
}
use live_auction_system.Prelude.Assoc.{Assoc, lookup, insert, delete}
use live_auction_system.Model.Status.{Status, live, is_live}

-- `auction:active` (the score of each auction), and the suppression deadline in each state Hash.
pub record TimerState : Type 0 where
  pub active : Assoc ℕ
  pub suppressed : Assoc ℕ

-- The codes of CloseAuctionDetailed; `close_other` is any code that `closeDue` does not list.
pub data CloseCode : Type 0 where
  close_sold close_no_bid close_already_terminal close_internal close_other : CloseCode
  close_not_due : ℕ → CloseCode

-- `TrackActive`
unfoldable pub track_active : Bool → ℕ → ℕ → TimerState → TimerState
track_active up aid end_at_ms st =
    if up then record st { active = insert aid end_at_ms st.active } else st

-- `UntrackActive`
unfoldable pub untrack_active : Bool → ℕ → TimerState → TimerState
untrack_active up aid st = if up then record st { active = delete aid st.active } else st

-- `MarkTimerErrInternalSuppression`
unfoldable pub mark_suppression : Bool → ℕ → ℕ → TimerState → TimerState
mark_suppression up aid until_ms st =
    if up
    then if ltb 0 until_ms
      then record st { suppressed = insert aid until_ms st.suppressed }
      else record st { suppressed = delete aid st.suppressed }
    else st

-- `timerErrInternalSuppressionInterval`, 30 minutes
abbrev pub suppression_interval_ms : ℕ
suppression_interval_ms = 1800000

-- Whether the writes of one `closeDue` reach Redis.
pub record TimerWrites : Type 0 where
  pub track_up : Bool
  pub untrack_up : Bool
  pub mark_up : Bool

-- `closeDue` after its call of CloseAuctionDetailed; `none` is a transport error. `now_ms` is Redis
-- TIME, or the process clock where that fails.
unfoldable pub close_due : TimerWrites → ℕ → Option CloseCode → ℕ → TimerState → TimerState
unfolding track_active untrack_active mark_suppression
close_due up aid none now_ms st = st
close_due up aid (some close_sold) now_ms st = untrack_active up.untrack_up aid st
close_due up aid (some close_no_bid) now_ms st = untrack_active up.untrack_up aid st
close_due up aid (some close_already_terminal) now_ms st = untrack_active up.untrack_up aid st
close_due up aid (some (close_not_due end_at_ms)) now_ms st =
    if ltb 0 end_at_ms then track_active up.track_up aid end_at_ms st else st
close_due up aid (some close_internal) now_ms st =
    untrack_active up.untrack_up aid
      (mark_suppression up.mark_up aid (now_ms + suppression_interval_ms) st)
close_due up aid (some close_other) now_ms st = st

-- `DueAuctions`
unfoldable pub due_auctions : ℕ → Assoc ℕ → List ℕ
due_auctions now [] = []
due_auctions now (entry ∷ rest) =
    let due = due_auctions now rest in if leb entry.1 now then entry.0 ∷ due else due

close_all : (ℕ → TimerWrites) → (ℕ → Option CloseCode) → ℕ → List ℕ → TimerState → TimerState
unfolding close_due
close_all up close now [] st = st
close_all up close now (aid ∷ aids) st =
    close_all up close now aids (close_due (up aid) aid (close aid) now st)

-- `hammerDue`
unfoldable pub hammer_due : (ℕ → TimerWrites) → (ℕ → Option CloseCode) → ℕ → TimerState → TimerState
unfolding close_all due_auctions
hammer_due up close now st = close_all up close now (due_auctions now st.active) st

-- The part of a Snapshot that `reconcileActive` reads.
pub record TimerSnapshot : Type 0 where
  pub status : Status
  pub end_at_ms : ℕ

abbrev until_of : Option ℕ → ℕ
until_of none = 0
until_of (some until_ms) = until_ms

-- One auction of `reconcileActive`; a snapshot is `none` where its read fails.
unfoldable pub reconcile_one : Bool → ℕ → Option TimerSnapshot → ℕ → TimerState → TimerState
unfolding track_active
reconcile_one up aid none now_ms st = st
reconcile_one up aid (some snap) now_ms st =
    if is_live snap.status && ltb 0 snap.end_at_ms
    then if ltb now_ms (until_of (lookup aid st.suppressed))
      then st
      else track_active up aid snap.end_at_ms st
    else st

-- `reconcileActive`
unfoldable pub reconcile_active :
    (ℕ → Bool) → List ℕ → (ℕ → Option TimerSnapshot) → ℕ → TimerState → TimerState
unfolding reconcile_one
reconcile_active up [] snapshot now_ms st = st
reconcile_active up (aid ∷ aids) snapshot now_ms st =
    reconcile_active up aids snapshot now_ms (reconcile_one (up aid) aid (snapshot aid) now_ms st)
