-- ===== src/Server/Rest.antt =====
-- What the seller's REST handlers of apps/lumen/internal/server/api.go read and write: the rows of
-- one auction in MySQL (apps/lumen/internal/store/storedb.go), its keys in Redis, and the answers.
-- A call of MySQL or Redis can fail, or take effect with its reply lost.
pub mod Freeze
pub mod Cancel
pub mod Edit
pub mod Guard
pub mod Split
pub mod Sections
pub mod Outcome
pub mod Patched
pub mod Cancelled
mod Tests
use live_auction_system.Prelude.{
  ℕ, Bool, true, false, ◌&&◌, ◌||◌, not, Option, none, some, if◌then◌else◌, ◌==◌,
}
use live_auction_system.Prelude.Int.{ℤ}
use live_auction_system.Model.Status.{Status, missing, draft, scheduled}
use live_auction_system.Model.Rules.{Rules, validate}
use live_auction_system.Engine.Room.{Room}
use live_auction_system.Store.Orders.{Write, write_ok, write_failed, write_lost}

-- `Auction`, with the display price of the row. Identifiers are numbers, and 0 is the empty string.
pub record Auction : Type 0 where
  pub product_id : ℕ
  pub seller_id : ℕ
  pub status : Status
  pub facts_confirmed : Bool
  pub current_price_cents : ℤ

-- One auction in MySQL and in Redis; `tracked` is its entry in the Timer's index.
pub record Lot : Type 0 where
  pub auction : Option Auction
  pub rules : Option Rules
  pub room : Room
  pub tracked : Bool

-- The codes of the answers; `plain` is a message without a code.
pub data Code : Type 0 where
  code_ok_rules_updated code_ok_frozen code_ok_live code_ok_cancelled : Code
  err_not_allowed err_already_terminal err_bad_state err_facts_not_confirmed : Code
  err_not_editable err_internal plain : Code

-- An answer: its HTTP status and its code.
pub record Answer : Type 0 where
  pub http : ℕ
  pub code : Code

abbrev pub internal_server_error : Answer
internal_server_error = record { http = 500; code = plain }

abbrev pub conflict : Code → Answer
conflict c = record { http = 409; code = c }

abbrev pub unauthorized : Answer
unauthorized = record { http = 401; code = plain }

abbrev pub not_found : Answer
not_found = record { http = 404; code = plain }

abbrev pub bad_request : Answer
bad_request = record { http = 400; code = plain }

abbrev pub forbidden : Answer
forbidden = record { http = 403; code = err_not_allowed }

abbrev pub ok : Code → Answer
ok c = record { http = 200; code = c }

-- What `ownsAuction` finds.
pub data Owned : Type 0 where
  refused : Answer → Owned
  owned : Auction → Owned

-- The ownership test on a row that was read.
unfoldable pub owned_by : ℕ → Option Auction → Owned
owned_by user none = refused not_found
owned_by user (some a) = if a.seller_id == user then owned a else refused forbidden

-- `ownsAuction`; `fails` is whether the read fails.
unfoldable pub owns_auction : Bool → ℕ → Lot → Owned
unfolding owned_by
owns_auction fails user lot =
    if fails then refused internal_server_error else owned_by user lot.auction

-- A write: whether it returned without an error, and the lot after it.
unfoldable pub store_write : Write → Lot → Lot → Bool × Lot
store_write write_ok old new = (true, new)
store_write write_failed old new = (false, old)
store_write write_lost old new = (false, new)

abbrev pub row_with_status : Status → Option Auction → Option Auction
row_with_status s none = none
row_with_status s (some a) = some (record a { status = s })

-- `UpdateAuctionStatus`
unfoldable pub set_status : Status → Lot → Lot
set_status s lot = record lot { auction = row_with_status s lot.auction }

-- The last write of a handler: an error answers 500.
unfoldable pub answer_write : Answer → Bool × Lot → Answer × Lot
answer_write a (true, lot) = (a, lot)
answer_write a (false, lot) = (internal_server_error, lot)
