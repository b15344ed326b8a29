-- ===== src/Engine/Room.antt =====
-- The Redis keys of one auction that the scripts of apps/lumen/internal/lua read and write, the
-- checks that the scripts share, and XADD with an explicit id.
use live_auction_system.Prelude.{
  ℕ, ◌+◌, Bool, if◌then◌else◌, List, [], ◌∷◌, Option, none, some, ltb,
}
use live_auction_system.Prelude.Assoc.{Assoc, lookup, insert}
use live_auction_system.Model.Status.{Status}
use live_auction_system.Model.Mode.{Mode}
use live_auction_system.Model.Events.{Event, BidAcceptedData, event_seq}

-- The state Hash `auction:{aid}:state`. A numeric field that is absent reads as 0
-- (`tonumber(x) or 0`), an absent identifier as 0, and an absent `status` as `missing`.
pub record AuctionState : Type 0 where
  pub status : Status
  pub mode : Mode
  pub paused : Bool
  pub seller_id : ℕ
  pub winner_id : ℕ
  pub winner_display_name : ℕ
  pub seq : ℕ
  pub bid_count : ℕ
  pub start_price_cents : ℕ
  pub current_price_cents : ℕ
  pub increment_cents : ℕ
  pub cap_price_cents : ℕ
  pub extend_window_sec : ℕ
  pub extend_sec : ℕ
  pub extend_count : ℕ
  pub max_extensions : ℕ
  pub end_at_ms : ℕ

-- For each key, whether its Redis TYPE is the one wanted or `none`.
pub record KeyTypes : Type 0 where
  pub state_ok : Bool
  pub leaderboard_ok : Bool
  pub stream_ok : Bool
  pub dedupe_ok : Bool
  pub sealed_ok : Bool
  pub sealed_names_ok : Bool

-- One Stream entry: the first part of its id `<id>-0`, and its type and payload.
pub record Entry : Type 0 where
  pub id : ℕ
  pub event : Event

-- The keys of one auction. The Stream and the Pub/Sub messages are newest first. `dedupe` holds the
-- dedupe Hash of each user.
pub record Room : Type 0 where
  pub state : AuctionState
  pub leaderboard : Assoc ℕ
  pub sealed_bids : Assoc ℕ
  pub sealed_names : Assoc ℕ
  pub stream : List Entry
  pub dedupe : Assoc (Assoc BidAcceptedData)
  pub published : List Event
  pub types : KeyTypes

-- `lastStreamSeq`: XREVRANGE with COUNT 1, or 0 for an empty Stream.
abbrev pub last_stream_seq : List Entry → ℕ
last_stream_seq [] = 0
last_stream_seq (e ∷ _) = e.id

abbrev pub or_empty {ℓ} : {V : Type ℓ} → Option (Assoc V) → Assoc V
or_empty none = []
or_empty (some m) = m

-- HGET on the dedupe Hash of a user. Redis deletes the Hash 24 hours after the last EXPIRE: a step of its
-- own in Engine/Trace.
unfoldable pub dedupe_get : ℕ → ℕ → Room → Option BidAcceptedData
dedupe_get user_id client_bid_id r = lookup client_bid_id (or_empty (lookup user_id r.dedupe))

-- HSET on the dedupe Hash of a user.
unfoldable pub dedupe_set : ℕ → ℕ → BidAcceptedData → Room → Room
dedupe_set user_id client_bid_id ack r = record r {
  dedupe = insert user_id (insert client_bid_id ack (or_empty (lookup user_id r.dedupe))) r.dedupe;
}

-- ZADD unless the member has that score or a higher one.
unfoldable pub raise_score : ℕ → ℕ → Assoc ℕ → Assoc ℕ
raise_score user_id amount board = elim (lookup user_id board) [
  | none ↦ insert user_id amount board
  | some prior ↦ if ltb prior amount then insert user_id amount board else board
]

abbrev pub publish : Event → Room → Room
publish e r = record r { published = e ∷ r.published }

-- XADD with the id `<seq>-0`: Redis refuses an id that does not exceed the last one. A refusal
-- raises an error in the script, which leaves all earlier writes in place.
unfoldable pub xadd {ℓ} : {R : Type ℓ} → Event → R → (Room → R × Room) → Room → R × Room
unfolding event_seq
xadd e failed next r =
    if ltb (last_stream_seq r.stream) (event_seq e)
    then next (record r { stream = record { id = event_seq e; event = e } ∷ r.stream })
    else (failed, r)

-- HINCRBY seq 1
abbrev pub next_seq : Room → Room
next_seq r = record r { state = record r.state { seq = r.state.seq + 1 } }
