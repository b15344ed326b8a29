-- ===== src/Lib.antt =====
-- The live auction system: a Go gateway and workers (apps/lumen) around Lua scripts that Redis runs
-- atomically, with MySQL as the durable record.
--
-- The parts and their files, with paths from apps/lumen/internal:
--   Model      model/model.go: states, modes, event payloads, rules and their validation.
--   Engine     lua/*.lua: the keys of one auction (Engine/Room), the bid scripts (Engine/PlaceBid,
--              with place_bid_sealed.lua in Engine/Sealed), freeze, start, close and cancel
--              (Engine/Lifecycle), the two closing scripts of the sealed modes (Engine/SealedClose),
--              and the interleavings of the ascending ones as a step relation (Engine/Trace) with the
--              invariant of Engine/Invariant.
--   Store      store/store.go: paged reads of the Stream (Store/Stream); store/storedb.go: the hash
--              chain over `auction_events` with store/evidence_key.go (Store/Evidence), the verifier's cache
--              (Store/Evidence/Cache), the settlement tables (Store/Orders), the deletion of an
--              auction (Store/Deletion), and what is shown of a room (Store/Views).
--   Server     server/mode.go (Server/Mode), the gateway's room cache, bid path and room join in
--              server/ws.go (Server/Hub, Server/Bid, Server/Join), server/ws_state_patch.go
--              (Server/StatePatch), server/timer.go (Server/Timer), the admission of sockets
--              (Server/Admission), their lanes, join barrier and write pump (Server/Conn), the
--              seller's handlers of server/api.go (Server/Rest), server/persistence.go
--              (Server/Persistence), the triggers of server/auctioneer.go (Server/Auctioneer) and the
--              likes of server/social.go (Server/Social).
--   SeqGuard   seqguard/seqguard.go: the client's ordering guard.
--   Verify     server/verify.go: the replay verifier.
--   Prelude    Boolean tests, lists, association lists and integers that the parts share.
--
-- How they meet: a client's BID_PLACE reaches a gateway (Server/Bid), which rejects it from its cache
-- (Server/Hub) or runs a script (Engine). The script appends to the Stream, which the gateway reads
-- (Store/Stream), fans out (Server/StatePatch) to the lanes of each socket (Server/Conn) and replays to
-- a joining client (Server/Join), whose guard (SeqGuard) orders it. The seller's requests
-- (Server/Rest) move an auction in MySQL and, by the scripts, in Redis. The Timer Worker
-- (Server/Timer) closes auctions; the persistence worker
-- (Server/Persistence) projects the Stream into the chain (Store/Evidence) and the settlement tables
-- (Store/Orders); the verifier compares the two (Verify).
--
-- Conventions: a state field of the source is a field of a record under the same name in snake case,
-- and an operation is a function from the state to its reply and the new state. Money and times are
-- natural numbers where the source has checked that they are not negative, and integers before that.
-- The scripts compute in doubles, which are exact up to 2^53, the money limit. Identifiers, names and
-- hashes are numbers, with 0 for the empty string, since they are only compared and copied. A clock
-- reading is an argument. XRANGE, ZREVRANGE, HMAC, JSON decoding and transport errors are
-- arguments too: `none` where a read fails, and a payload that does not decode is `malformed`.
--
-- Fuel: `collect_loop` of Store/Stream has fuel, one unit for each fetch; one more unit than there
-- are events to read is enough (Store/Stream/Complete). The loops of Server/Conn/Pump count as the
-- source's own loops do. Interleavings are lists of steps (Server/Conn/Interleave) and of critical
-- sections (Server/Rest/Sections); a step is one operation on the channels of a socket, except that
-- the splice of a join is one step, and so is a sender whole: the test of `done`, the send and, where
-- the lane is full, the close. In the program another goroutine that broadcasts may send between such a
-- failing send and its close. In a batch of the write pump (`coalesce_drain`)
-- critical frames may arrive before each turn of the loop over the broadcast lane, and no others do.
--
-- Not modelled: the buffer below the websocket library, the REST handlers that are neither the
-- seller's nor a bid's, SQL beyond `auction_events`, its cache and the rows of one auction, metrics, the drivers for demos
-- and load, the AI sidecar and the web client. Of what the faults of MySQL can do, a call of
-- InsertEvent fails or runs as a whole.
mod Prelude
pub mod Model
pub mod SeqGuard
pub mod Verify
pub mod Store
pub mod Engine
pub mod Server
