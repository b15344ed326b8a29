-- ===== src/Server/Persistence/Pass.antt =====
-- The loop `project` of runPersistenceWorker in apps/lumen/internal/server/persistence.go.
use live_auction_system.Prelude.{
  ℕ, ◌+◌, Bool, true, false, Option, none, some, if◌then◌else◌, List, [], ◌∷◌,
}
use live_auction_system.Model.Events.{
  EventType, type_bid_accepted, type_auction_extended, type_auction_sold, type_auction_no_bid,
  type_auction_cancelled, type_sealed_bid_received, type_auction_revealed, type_all_pay_forfeit,
  type_other,
}
use live_auction_system.Store.Stream.{StreamEvent, Fetch, read_events_after, collected}
use live_auction_system.Store.Evidence.{EventRow, InsertResult, insert_ok, MacInput, insert_event}
use live_auction_system.Store.Orders.{
  Tables, ProjectError, Write, write_ok, write_failed, write_lost, SoldPayload, ForfeitPayload,
  permanent_order_projection, order_projection_mismatch, project_all_pay_forfeit,
  update_auction_status,
}
use live_auction_system.Server.Persistence.{SoldFaults, project_sold, terminal_status}

-- What the calls for one event meet. `insert` is InsertEvent as a whole.
pub record EventFaults : Type 0 where
  pub insert : Write
  pub sold : SoldFaults
  pub forfeit : Write
  pub status : Write

-- One auction in MySQL, and its entry of `lastID`.
pub record Worker : Type 0 where
  pub tables : Tables
  pub rows : List EventRow
  pub last_id : Option ℕ

-- The Type* strings, as `auction_events` stores them.
unfoldable pub type_name : EventType → ℕ
type_name (type_other n) = n + 9
type_name type_bid_accepted = 1
type_name type_auction_extended = 2
type_name type_auction_sold = 3
type_name type_auction_no_bid = 4
type_name type_auction_cancelled = 5
type_name type_sealed_bid_received = 6
type_name type_auction_revealed = 7
type_name type_all_pay_forfeit = 8

-- Whether the loop moves its cursor past an event of this error.
unfoldable pub moves_on : Option ProjectError → Bool
moves_on none = true
moves_on (some permanent_order_projection) = true
moves_on (some order_projection_mismatch) = true
moves_on (some _) = false

unfoldable pub is_nil : Option ProjectError → Bool
is_nil none = true
is_nil (some _) = false

-- HMAC, the evidence keys, the store's version and key, and json.Unmarshal are parameters.
module _ (mac : MacInput → ℕ) (evidence_key : ℕ → Option ℕ) (version : ℕ) (key : ℕ)
    (decode_sold : ℕ → Option SoldPayload) (decode_forfeit : ℕ → Option ForfeitPayload) where
  unfoldable pub insert_result :
      Write → InsertResult × List EventRow → List EventRow → Bool × List EventRow
  insert_result write_ok (insert_ok, rows) old = (true, rows)
  insert_result write_ok (_, rows) old = (false, rows)
  insert_result write_failed out old = (false, old)
  insert_result write_lost out old = (false, out.1)

  -- The call of InsertEvent: whether it returned nil, and the rows after it.
  unfoldable pub insert_row_of : Write → StreamEvent → List EventRow → Bool × List EventRow
  unfolding insert_result insert_event type_name
  insert_row_of w e rows =
      insert_result w
        (insert_event mac evidence_key key version e.seq (type_name e.event_type) e.payload rows)
        rows

  unfoldable pub status_of : Option ProjectError × Tables → Bool × Tables
  status_of (err, t) = (is_nil err, t)

  -- The projection of the event's type: whether the loop moves on, and the tables.
  unfoldable pub settle_event : EventFaults → EventType → ℕ → Tables → Bool × Tables
  unfolding project_sold moves_on is_nil project_all_pay_forfeit terminal_status
      update_auction_status status_of
  settle_event f type_auction_sold payload t =
      let out = project_sold f.sold (decode_sold payload) t in (moves_on out.0, out.1)
  settle_event f type_all_pay_forfeit payload t =
      status_of (project_all_pay_forfeit f.forfeit (decode_forfeit payload) t)
  settle_event f other payload t = elim (terminal_status other) [
    | none ↦ (true, t)
    | some s ↦ status_of (update_auction_status f.status s t)
  ]

  -- The loop over the events read; each comes with its faults.
  unfoldable pub project_pass : List (EventFaults × StreamEvent) → Worker → Worker
  unfolding insert_row_of settle_event
  project_pass [] w = w
  project_pass ((f, e) ∷ events) w =
      let (inserted, rows) = insert_row_of f.insert e w.rows in
      let (moves, t) = settle_event f e.event_type e.payload w.tables in
      let rest = project_pass events (record { tables = t; rows = rows; last_id = some e.id }) in
      if inserted
      then if moves then rest else record w { tables = t; rows = rows }
      else record w { rows = rows }

  -- Each event read, with its faults.
  abbrev pub with_faults :
      (StreamEvent → EventFaults) → List StreamEvent → List (EventFaults × StreamEvent)
  with_faults f [] = []
  with_faults f (e ∷ es) = (f e, e) ∷ with_faults f es

  -- `project`: the read, and the loop.
  unfoldable pub project_auction : Fetch → ℕ → (StreamEvent → EventFaults) → Worker → Worker
  unfolding read_events_after project_pass
  project_auction fetch fuel f w = elim (read_events_after fetch fuel w.last_id) [
    | collected events _ ↦ project_pass (with_faults f events) w
    | _ ↦ w
  ]
