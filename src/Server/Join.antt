-- ===== src/Server/Join.antt =====
-- ROOM_JOIN: `dispatchWS` and `eventsUpToSnapshot` of apps/lumen/internal/server/ws.go.
pub mod Catchup
mod Tests
use live_auction_system.Prelude.{
  ℕ, ◌+◌, ◌-◌, Bool, true, false, ◌&&◌, Option, none, some, if◌then◌else◌, ltb, leb, ◌==◌, List, [],
  ◌∷◌, ◌++◌, map,
}
use live_auction_system.Model.Mode.{Mode}
use live_auction_system.Store.Stream.{StreamEvent}
use live_auction_system.Server.Hub.{HubState, set_mode}

-- `eventsUpToSnapshot`
unfoldable pub events_up_to_snapshot : List StreamEvent → ℕ → List StreamEvent
events_up_to_snapshot [] snapshot_seq = []
events_up_to_snapshot (e ∷ events) snapshot_seq =
    let rest = events_up_to_snapshot events snapshot_seq in
    if leb e.seq snapshot_seq then e ∷ rest else rest

-- `catchupMaxGap`
abbrev pub catchup_max_gap : ℕ
catchup_max_gap = 200

-- The part of a Snapshot that ROOM_JOIN passes on: its seq, and the mode where there are rules.
pub record JoinSnapshot : Type 0 where
  pub seq : ℕ
  pub rules_mode : Option Mode
  pub viewer_count : ℕ
  pub sim_viewer_count : ℕ

pub data JoinFrame : Type 0 where
  replayed : StreamEvent → JoinFrame
  room_snapshot : JoinSnapshot → JoinFrame

-- The events that are replayed. `read` is what ReadEventsAfter returns, `none` for an error.
unfoldable pub catchup : ℕ → ℕ → Option (List StreamEvent) → List StreamEvent
unfolding events_up_to_snapshot
catchup last_seq snapshot_seq none = []
catchup last_seq snapshot_seq (some events) =
    if ltb last_seq snapshot_seq && leb (snapshot_seq - last_seq) catchup_max_gap
    then events_up_to_snapshot events snapshot_seq
    else []

cache_mode : ℕ → Option Mode → HubState → HubState
unfolding set_mode
cache_mode aid none h = h
cache_mode aid (some mode) h = set_mode aid mode h

-- What ROOM_JOIN pushes to the connection, and the cache after it. `snap` is `none` where the read of
-- the snapshot fails; `viewers` and `sim` are the room's viewers and the simulated share.
unfoldable pub join_room :
    ℕ
    → ℕ
    → Option JoinSnapshot
    → Option (List StreamEvent)
    → ℕ
    → ℕ
    → HubState
    → List JoinFrame × HubState
unfolding catchup cache_mode
join_room aid last_seq none read viewers sim h = ([], h)
join_room aid last_seq (some snap) read viewers sim h = if aid == 0 then ([], h) else (
  map replayed (catchup last_seq snap.seq read)
      ++ (room_snapshot (record snap { viewer_count = viewers + sim; sim_viewer_count = sim })
          ∷ []),
  cache_mode aid snap.rules_mode h,
)
