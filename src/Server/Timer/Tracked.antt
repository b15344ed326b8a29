-- ===== src/Server/Timer/Tracked.antt =====
-- What a reconcile pass leaves in the index.
use live_auction_system.Prelude.{
  ℕ, ◌+◌, ◌<◌, ◌≡◌, refl, ap, Bool, true, false, Option, none, some, arith, List, [], ◌∷◌,
  if◌then◌else◌, ◌==◌, ltb, ◌&&◌,
}
use live_auction_system.Prelude.Assoc.{lookup, lookup-insert, lookup-delete}
use live_auction_system.Model.Status.{is_live}
use live_auction_system.Server.Timer.{
  TimerState, TimerSnapshot, TimerWrites, reconcile_active, reconcile_one, track_active, close_due,
  close_internal, until_of, suppression_interval_ms, mark_suppression, untrack_active,
}

abbrev pub contains : ℕ → List ℕ → Bool
contains aid [] = false
contains aid (x ∷ xs) = if aid == x then true else contains aid xs

-- The end at which a pass at `now` tracks an auction, if its write reaches Redis: that of a live
-- snapshot, unless its suppression runs until after `now`.
abbrev pub tracked_end : Bool → Option TimerSnapshot → ℕ → ℕ → Option ℕ
tracked_end false snap until_ms now_ms = none
tracked_end true none until_ms now_ms = none
tracked_end true (some snap) until_ms now_ms =
    if is_live snap.status && ltb 0 snap.end_at_ms
    then if ltb now_ms until_ms then none else some snap.end_at_ms
    else none

abbrev pub override : Option ℕ → Option ℕ → Option ℕ
override none old = old
override (some new) old = some new

override_twice : (o v : Option ℕ) → override o (override o v) ≡ override o v
override_twice none v = refl
override_twice (some x) v = refl

reconcile_one-suppressed :
    (up : Bool) (aid : ℕ) (snap : Option TimerSnapshot) (now : ℕ) (st : TimerState)
    → (reconcile_one up aid snap now st).suppressed ≡ st.suppressed
unfolding reconcile_one track_active
reconcile_one-suppressed up aid snap now st = ground arith

reconcile_one-lookup :
    (up : Bool) (j aid : ℕ) (snap : Option TimerSnapshot) (now : ℕ) (st : TimerState)
    → lookup j (reconcile_one up aid snap now st).active ≡ (
        if j == aid
        then override
            (tracked_end up snap (until_of (lookup aid st.suppressed)) now)
            (lookup j st.active)
        else lookup j st.active)
unfolding reconcile_one track_active
reconcile_one-lookup false j aid snap now st = ground arith
reconcile_one-lookup true j aid none now st = ground arith
reconcile_one-lookup true j aid (some snap) now st =
    ground (arith, lookup-insert j aid snap.end_at_ms st.active)

reconcile_next :
    (aids : List ℕ) (x : ℕ) (t t' old new : Option ℕ) (aid : ℕ)
    → (aid ≡ x → t ≡ t')
    → new ≡ (if aid == x then override t' old else old)
    → (if contains aid aids then override t new else new)
      ≡ (if contains aid (x ∷ aids) then override t old else old)
reconcile_next aids x t t' old new aid same step = ground (arith, same, step, override_twice t old)

-- After a reconcile pass, each auction that was scanned, whose snapshot is live with an end, and whose
-- write reached Redis, is in the index at that end, unless its suppression runs until after `now`;
-- every other auction is in the index as it was before.
pub reconcile_active-lookup :
    (up : ℕ → Bool) (aids : List ℕ) (snapshot : ℕ → Option TimerSnapshot) (now aid : ℕ)
    (st : TimerState)
    → lookup aid (reconcile_active up aids snapshot now st).active ≡ (
        if contains aid aids
        then override
            (tracked_end (up aid) (snapshot aid) (until_of (lookup aid st.suppressed)) now)
            (lookup aid st.active)
        else lookup aid st.active)
unfolding reconcile_active
reconcile_active-lookup up [] snapshot now aid st = refl
reconcile_active-lookup up (x ∷ aids) snapshot now aid st =
    let end_of : ℕ → Option ℕ =
      λ y. tracked_end (up y) (snapshot y) (until_of (lookup y st.suppressed)) now in
    rw
      (
        reconcile_active-lookup up aids snapshot now aid
            (reconcile_one (up x) x (snapshot x) now st),
        reconcile_one-suppressed (up x) x (snapshot x) now st,
      )
      (reconcile_next aids x (end_of aid) (end_of x) (lookup aid st.active)
        (lookup aid (reconcile_one (up x) x (snapshot x) now st).active) aid (λ e. ap end_of e)
        (reconcile_one-lookup (up x) aid x (snapshot x) now st))

abbrev pub all_up : TimerWrites
all_up = record { track_up = true; untrack_up = true; mark_up = true }

close_internal-lookup :
    (aid closed_at : ℕ) (st : TimerState)
    → (lookup aid (close_due all_up aid (some close_internal) closed_at st).active ≡ none)
      × (until_of (lookup aid (close_due all_up aid (some close_internal) closed_at st).suppressed)
          ≡ closed_at + suppression_interval_ms)
unfolding close_due untrack_active mark_suppression
close_internal-lookup aid closed_at st = ground (
  arith,
  lookup-delete aid aid st.active,
  lookup-insert aid aid (closed_at + suppression_interval_ms) st.suppressed,
)

suppressed-tracked_end :
    (up : Bool) (snap : Option TimerSnapshot) (until_ms now : ℕ)
    → now < until_ms
    → tracked_end up snap until_ms now ≡ none
suppressed-tracked_end false snap until_ms now h = refl
suppressed-tracked_end true none until_ms now h = refl
suppressed-tracked_end true (some snap) until_ms now h = ground arith

-- An auction that closes with ERR_INTERNAL, with the writes reaching Redis, leaves the index, and no
-- reconcile pass puts it back before 30 minutes have passed, whatever the pass finds.
pub internal_suppressed :
    (up : ℕ → Bool) (aids : List ℕ) (snapshot : ℕ → Option TimerSnapshot) (aid closed_at now : ℕ)
    (st : TimerState)
    → now < closed_at + suppression_interval_ms
    → lookup aid
        (reconcile_active up aids snapshot now
          (close_due all_up aid (some close_internal) closed_at st)).active
      ≡ none
internal_suppressed up aids snapshot aid closed_at now st h =
    let closed = close_due all_up aid (some close_internal) closed_at st in
    let (gone, kept) = close_internal-lookup aid closed_at st in
    ground (
      arith,
      reconcile_active-lookup up aids snapshot now aid closed,
      gone,
      suppressed-tracked_end (up aid) (snapshot aid) (until_of (lookup aid closed.suppressed)) now
          (ground (arith, kept, h)),
    )
