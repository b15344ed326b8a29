-- ===== src/Server/Conn.antt =====
-- The connection of one client: `Conn` of apps/lumen/internal/server/ws.go, with its three lanes, the
-- ROOM_JOIN barrier and the senders. A sender is one step here; the pump's steps are in Conn/Pump.antt.
-- `send_buf_frames` is the environment's WS_CRIT_FRAMES.
pub mod Pump
pub mod Interleave
pub mod Lanes
pub mod Delivery
pub mod Flags
pub mod Writes
pub mod Runs
pub mod Barrier
pub mod Drain
pub mod Batch
pub mod Priority
pub mod Steps
pub mod Turn
mod Tests
use live_auction_system.Prelude.{
  ℕ, Bool, true, false, Option, none, some, if◌then◌else◌, ltb, List, [], ◌∷◌, ◌++◌, length,
}

-- `outboundFrame`: prepared once for the room, or raw bytes. The contents are a number.
pub record OutboundFrame : Type 0 where
  pub prepared : Bool
  pub size : ℕ
  pub contents : ℕ

pub data Lane : Type 0 where
  crit_lane : Lane
  broadcast_lane : Lane
  lossy_lane : Lane

-- `Conn`. `closed` is the code that closeWithCode recorded, `none` until `done` is closed; `selected`
-- is the broadcast frame that writePump has received and not yet written; `pumping` says that
-- writePump has not returned; `written` is what it wrote, each frame with the lane it came from.
pub record Conn : Type 0 where
  pub crit : List OutboundFrame
  pub broadcast : List OutboundFrame
  pub lossy : List OutboundFrame
  pub pending : List OutboundFrame
  pub joining : Bool
  pub closed : Option ℕ
  pub selected : Option OutboundFrame
  pub pumping : Bool
  pub written : List (Lane × OutboundFrame)

-- A connection as handleWS makes it.
abbrev pub new_conn : Conn
new_conn = record {
  crit = [];
  broadcast = [];
  lossy = [];
  pending = [];
  joining = false;
  closed = none;
  selected = none;
  pumping = true;
  written = [];
}

-- `done` is closed.
unfoldable pub done : Option ℕ → Bool
done none = false
done (some code) = true

-- `closeOnce`: the first code stays.
unfoldable pub close_once : ℕ → Option ℕ → Option ℕ
close_once code none = some code
close_once code (some first) = some first

-- `closeWithCode`
unfoldable pub close_with_code : ℕ → Conn → Conn
unfolding close_once
close_with_code code c = record c { closed = close_once code c.closed }

-- `closeCodeBackpressureDrop`
abbrev pub close_code_backpressure_drop : ℕ
close_code_backpressure_drop = 4000

-- The size of the lossy lane.
abbrev pub lossy_frames : ℕ
lossy_frames = 16

-- `enqueueCritical`
unfoldable pub enqueue_critical : ℕ → OutboundFrame → Conn → Conn
unfolding done close_with_code
enqueue_critical send_buf_frames f c =
    if done c.closed
    then c
    else if ltb (length c.crit) send_buf_frames
    then record c { crit = c.crit ++ f ∷ [] }
    else close_with_code close_code_backpressure_drop c

-- `enqueueBroadcastReady`
unfoldable pub enqueue_broadcast_ready : ℕ → OutboundFrame → Conn → Conn
unfolding done close_with_code
enqueue_broadcast_ready send_buf_frames f c =
    if done c.closed
    then c
    else if ltb (length c.broadcast) send_buf_frames
    then record c { broadcast = c.broadcast ++ f ∷ [] }
    else close_with_code close_code_backpressure_drop c

-- `enqueueBroadcast` under the barrier.
unfoldable pub buffer : ℕ → OutboundFrame → Conn → Conn
unfolding done close_with_code
buffer send_buf_frames f c =
    if done c.closed
    then c
    else if ltb (length c.pending) send_buf_frames
    then record c { pending = c.pending ++ f ∷ [] }
    else close_with_code close_code_backpressure_drop c

-- `enqueueBroadcast`
unfoldable pub enqueue_broadcast : ℕ → OutboundFrame → Conn → Conn
unfolding enqueue_broadcast_ready buffer
enqueue_broadcast send_buf_frames f c =
    if c.joining then buffer send_buf_frames f c else enqueue_broadcast_ready send_buf_frames f c

-- `trySendLossy`
unfoldable pub try_send_lossy : OutboundFrame → Conn → Conn
unfolding done
try_send_lossy f c =
    if done c.closed
    then c
    else if ltb (length c.lossy) lossy_frames
    then record c { lossy = c.lossy ++ f ∷ [] }
    else c

-- `beginJoinBarrier`
unfoldable pub begin_join_barrier : Conn → Conn
begin_join_barrier c = record c { joining = true; pending = [] }

-- The loop of `spliceAndGoLive`.
unfoldable pub splice : ℕ → List OutboundFrame → Conn → Conn
unfolding enqueue_broadcast_ready
splice send_buf_frames [] c = c
splice send_buf_frames (f ∷ fs) c =
    splice send_buf_frames fs (enqueue_broadcast_ready send_buf_frames f c)

-- `spliceAndGoLive`
unfoldable pub splice_and_go_live : ℕ → Conn → Conn
unfolding splice
splice_and_go_live send_buf_frames c = record (splice send_buf_frames c.pending c) {
  pending = [];
  joining = false;
}
