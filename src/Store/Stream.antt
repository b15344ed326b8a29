-- ===== src/Store/Stream.antt =====
-- Reading an auction's Stream in chunks: apps/lumen/internal/store/store.go. A Stream id `<n>-0` is
-- the number n, and the empty lastID is `none`; the optional "(" before it makes no difference.
pub mod Emit
pub mod Pages
pub mod Complete
mod Tests
use live_auction_system.Prelude.{
  ℕ, zero, suc, ◌+◌, Bool, ◌&&◌, ◌||◌, if◌then◌else◌, ltb, leb, ◌==◌, List, [], ◌∷◌, ◌++◌, Option,
  none, some, length,
}
use live_auction_system.Model.Events.{EventType}

-- `StreamEvent`; the payload is kept as it is.
pub record StreamEvent : Type 0 where
  pub id : ℕ
  pub seq : ℕ
  pub event_type : EventType
  pub payload : ℕ

pub data Collected : Type 0 where
  collected : List StreamEvent → Option ℕ → Collected
  fetch_failed : Option ℕ → Collected
  out_of_fuel : Collected

-- `streamIDSeq`
unfoldable pub stream_id_seq : Option ℕ → ℕ
stream_id_seq none = 0
stream_id_seq (some n) = n

-- `streamRangeStart`, where `none` is "-".
abbrev pub stream_range_start : Option ℕ → Option ℕ
stream_range_start last_id = last_id

-- `streamIDForSeq` of apps/lumen/internal/server/ws.go
abbrev pub stream_id_for_seq : ℕ → Option ℕ
stream_id_for_seq seq = some seq

-- The inner loop over one chunk: what it appends to `out`, and `newLast` and `lastSeq` after it.
unfoldable pub emit_chunk :
    ℕ
    → Option ℕ
    → List StreamEvent
    → record { out : List StreamEvent; new_last : Option ℕ; last_seq : ℕ }
emit_chunk last_seq new_last [] = record { out = []; new_last = new_last; last_seq = last_seq }
emit_chunk last_seq new_last (m ∷ msgs) =
    let skipped = emit_chunk last_seq new_last msgs in
    let rest = emit_chunk (if ltb last_seq m.seq then m.seq else last_seq) (some m.id) msgs in
    if ltb 0 last_seq && leb m.seq last_seq
    then skipped
    else record { out = m ∷ rest.out; new_last = rest.new_last; last_seq = rest.last_seq }

-- `msgs[len(msgs)-1].ID`
unfoldable pub last_id : List StreamEvent → Option ℕ
last_id [] = none
last_id (m ∷ []) = some m.id
last_id (m ∷ n ∷ msgs) = last_id (n ∷ msgs)

-- XRANGE key start + COUNT n: `none` is a transport error.
abbrev pub Fetch : Type 0
Fetch = Option ℕ → ℕ → Option (List StreamEvent)

-- The outer loop of `collectStreamEvents`, one unit of fuel for each fetch.
unfoldable pub collect_loop :
    Fetch → ℕ → Option ℕ → ℕ → ℕ → Option ℕ → Option ℕ → List StreamEvent → Collected
unfolding emit_chunk last_id
collect_loop fetch chunk given zero last_seq new_last cursor out = out_of_fuel
collect_loop fetch chunk given (suc fuel) last_seq new_last cursor out = elim (fetch cursor chunk) [
  | none ↦ fetch_failed given
  | some [] ↦ collected out new_last
  | some (m ∷ msgs) ↦
      let e = emit_chunk last_seq new_last (m ∷ msgs) in
      let rest =
        collect_loop fetch chunk given fuel e.last_seq e.new_last
          (stream_range_start (last_id (m ∷ msgs))) (out ++ e.out) in
      if ltb (length (m ∷ msgs)) chunk || (length e.out == 0)
      then collected (out ++ e.out) e.new_last
      else rest
]

-- `collectStreamEvents`
unfoldable pub collect_stream_events : Fetch → ℕ → ℕ → Option ℕ → Collected
unfolding collect_loop stream_id_seq
collect_stream_events fetch chunk fuel last_id =
    collect_loop fetch (if ltb chunk 2 then 2 else chunk) last_id fuel (stream_id_seq last_id)
      last_id (stream_range_start last_id) []

-- `readEventsChunk`
abbrev pub read_events_chunk : ℕ
read_events_chunk = 1000

-- `ReadEventsAfter`
unfoldable pub read_events_after : Fetch → ℕ → Option ℕ → Collected
unfolding collect_stream_events
read_events_after fetch fuel last_id = collect_stream_events fetch read_events_chunk fuel last_id
