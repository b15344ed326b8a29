-- ===== src/Store/Deletion.antt =====
-- `DeleteAuction` and `UpdateAuctionStatusIf` of apps/lumen/internal/store/storedb.go.
use live_auction_system.Prelude.{
  ℕ, ◌≡◌, ◌≢◌, Bool, true, false, ◌&&◌, not, if◌then◌else◌, ◌==◌, List, [], Option, none, some,
  arith,
}
use live_auction_system.Model.Status.{Status, Status-discrete, is_terminal}
use live_auction_system.Store.Evidence.{EventRow}
use live_auction_system.Store.Evidence.Cache.{EvidenceChainCache}
use live_auction_system.Store.Orders.{Tables, AuctionRow, with_status}

-- What MySQL and Redis hold of one auction; of `bids` and the Redis keys only the number is kept.
pub record AuctionData : Type 0 where
  pub tables : Tables
  pub events : List EventRow
  pub cache : Option EvidenceChainCache
  pub bids : ℕ
  pub has_product : Bool
  pub redis_keys : ℕ
  pub tracked : Bool

pub data DeleteReply : Type 0 where
  deleted :
      record { redis_keys_deleted : ℕ; untracked : Bool; product_deleted : Bool } → DeleteReply
  delete_not_found err_auction_not_deletable delete_error : DeleteReply

-- What the calls meet. A purge that fails is passed over; a statement of the transaction
-- that is reached and fails rolls it back.
pub record DeleteFaults : Type 0 where
  pub gate_fails : Bool
  pub zrem_fails : Bool
  pub purge_fails : Bool
  pub transaction_fails : Bool

-- The ZREM, and the DEL of the keys that SCAN has found.
unfoldable pub purge : DeleteFaults → AuctionData → AuctionData
purge f x = record x {
  redis_keys = if f.purge_fails then x.redis_keys else 0;
  tracked = if f.zrem_fails then x.tracked else false;
}

-- Every row of the auction gone, and the product's if no other auction has it.
abbrev pub cascade : ℕ → ℕ → AuctionData → AuctionData
cascade product others x = record x {
  tables = record { auction = none; rules_mode = none; order = none; coin_ledger = [] };
  events = [];
  cache = none;
  bids = 0;
  has_product = if not (product == 0) && (others == 0) then false else x.has_product;
}

-- The transaction, for the product that the gate has read.
unfoldable pub delete_rows :
    DeleteFaults → ℕ → ℕ → DeleteReply → AuctionData → DeleteReply × AuctionData
unfolding is_terminal
delete_rows f product others reply x =
    if f.transaction_fails then (delete_error, x) else elim x.tables.auction [
      | none ↦ (err_auction_not_deletable, x)
      | some a ↦
          if is_terminal a.status
          then (reply, cascade product others x)
          else (err_auction_not_deletable, x)
    ]

-- `DeleteAuction`. `others` is the number of other auctions of the product, and `between` what others
-- do to the data between the purge and the transaction.
unfoldable pub delete_auction :
    DeleteFaults → ℕ → ℕ → (AuctionData → AuctionData) → AuctionData → DeleteReply × AuctionData
unfolding is_terminal purge delete_rows
delete_auction f seller others between x =
    if f.gate_fails then (delete_error, x) else elim x.tables.auction [
      | none ↦ (delete_not_found, x)
      | some a ↦
          if not (a.seller_id == seller)
          then (delete_not_found, x)
          else if not (is_terminal a.status)
          then (err_auction_not_deletable, x)
          else delete_rows f a.product_id others
              (deleted (record {
                redis_keys_deleted = if f.purge_fails then 0 else x.redis_keys;
                untracked = if f.zrem_fails then false else x.tracked;
                product_deleted = not (a.product_id == 0) && (others == 0);
              }))
              (between (purge f x))
    ]

is_status : Status → Status → Bool
is_status s t = elim (Status-discrete s t) [ yes _ ↦ true | no _ ↦ false ]

-- `UpdateAuctionStatusIf`: whether the row was updated, and the tables.
unfoldable pub update_auction_status_if : Status → Status → Tables → Bool × Tables
unfolding is_status
update_auction_status_if status expected t = elim t.auction [
  | none ↦ (false, t)
  | some a ↦
      if is_status a.status expected
      then (true, record t { auction = with_status status t.auction })
      else (false, t)
]

-- A running auction, or another seller's, is not touched, neither in MySQL nor in Redis.
pub delete_auction_guarded :
    (f : DeleteFaults) (seller others : ℕ) (between : AuctionData → AuctionData) (x : AuctionData)
    (a : AuctionRow)
    → x.tables.auction ≡ some a
    → ((a.seller_id == seller) && is_terminal a.status) ≡ false
    → (delete_auction f seller others between x).1 ≡ x
unfolding delete_auction
delete_auction_guarded f seller others between x a h g = ground (arith, h, g)

-- Of two updates that expect the same status and set another, the second one does not apply.
pub second_update_fails :
    (status other expected : Status) (t : Tables)
    → status ≢ expected
    → (update_auction_status_if status expected t).0 ≡ true
    → (update_auction_status_if other expected (update_auction_status_if status expected t).1).0
      ≡ false
unfolding update_auction_status_if
second_update_fails status other expected t h first = ground (arith, h, first)
