-- ===== src/Store/Orders.antt =====
-- The settlement tables of one auction, in apps/lumen/internal/store/storedb.go and
-- infra/mysql/init/01-schema.sql: `auctions`, the mode of `auction_rules`, `orders` and `coin_ledger`.
-- The keys of `orders` leave at most one row for an auction. Creation and update times are left out.
use live_auction_system.Prelude.{
  ℕ, Bool, true, false, ◌&&◌, Option, none, some, if◌then◌else◌, ◌==◌, List, [], ◌∷◌,
}
use live_auction_system.Prelude.Int.{ℤ, pos, ◌-ℤ◌, eqb_ℤ}
use live_auction_system.Model.Status.{Status}
use live_auction_system.Model.Mode.{Mode}

pub record AuctionRow : Type 0 where
  pub product_id : ℕ
  pub seller_id : ℕ
  pub status : Status
  pub current_price_cents : ℤ
  pub winner_id : ℕ

pub data OrderStatus : Type 0 where
  created paid : OrderStatus

pub record Order : Type 0 where
  pub product_id : ℕ
  pub buyer_id : ℕ
  pub amount_cents : ℤ
  pub status : OrderStatus
  pub paid_at : Option ℕ

pub data Reason : Type 0 where
  win runner_up_forfeit : Reason

pub record CoinRow : Type 0 where
  pub user_id : ℕ
  pub delta_coins : ℤ
  pub reason : Reason
  pub seq : ℕ

pub record Tables : Type 0 where
  pub auction : Option AuctionRow
  pub rules_mode : Option Mode
  pub order : Option Order
  pub coin_ledger : List CoinRow

-- How a write ends: done, failed without effect, or done with the reply lost.
pub data Write : Type 0 where
  write_ok write_failed write_lost : Write

-- The errors of the projections; `transient` is any error that is none of the others.
pub data ProjectError : Type 0 where
  permanent_order_projection order_projection_mismatch not_found transient : ProjectError

-- `nil` is `none`.
abbrev pub Outcome : Type 0
Outcome = Option ProjectError × Tables

abbrev pub then_do : Outcome → (Tables → Outcome) → Outcome
then_do (none, t) next = next t
then_do (some e, t) next = (some e, t)

unfoldable pub write : Write → Tables → Tables → Outcome
write write_ok old new = (none, new)
write write_failed old new = (some transient, old)
write write_lost old new = (some transient, new)

-- An AUCTION_SOLD payload as decoded: `amount_cents` is `none` where ParseInt fails.
pub record SoldPayload : Type 0 where
  pub seq : ℕ
  pub winner_id : ℕ
  pub amount_cents : Option ℤ

-- An ALL_PAY_FORFEIT payload as decoded.
pub record ForfeitPayload : Type 0 where
  pub seq : ℕ
  pub user_id : ℕ
  pub coins_forfeit : Option ℤ

abbrev pub with_status : Status → Option AuctionRow → Option AuctionRow
with_status s none = none
with_status s (some a) = some (record a { status = s })

-- `UpdateAuctionStatus`
unfoldable pub update_auction_status : Write → Status → Tables → Outcome
unfolding write
update_auction_status w s t = write w t (record t { auction = with_status s t.auction })

abbrev pub with_hammer : ℕ → ℤ → Option AuctionRow → Option AuctionRow
with_hammer winner amount none = none
with_hammer winner amount (some a) =
    some (record a { current_price_cents = amount; winner_id = winner })

-- `FinalizeAuctionSold`
unfoldable pub finalize_auction_sold : Write → ℕ → ℤ → Tables → Outcome
unfolding write
finalize_auction_sold w winner amount t =
    write w t (record t { auction = with_hammer winner amount t.auction })

-- Whether `uq_coin` has a row for this user and seq.
unfoldable pub has_coin : ℕ → ℕ → List CoinRow → Bool
has_coin user seq [] = false
has_coin user seq (c ∷ ledger) =
    let rest = has_coin user seq ledger in
    if c.user_id == user && (c.seq == seq) then true else rest

-- INSERT IGNORE INTO coin_ledger.
unfoldable pub insert_coin : CoinRow → List CoinRow → List CoinRow
unfolding has_coin
insert_coin c ledger = if has_coin c.user_id c.seq ledger then ledger else c ∷ ledger

-- `ProjectAllPayWin`
unfoldable pub project_all_pay_win : Write → Option SoldPayload → Tables → Outcome
unfolding write insert_coin
project_all_pay_win w none t = (some transient, t)
project_all_pay_win w (some d) t =
    if d.winner_id == 0 then (some transient, t) else elim d.amount_cents [
      | none ↦ (some transient, t)
      | some coins ↦ write w t (record t {
        coin_ledger =
            insert_coin
              (record {
                user_id = d.winner_id;
                delta_coins = pos 0 -ℤ coins;
                reason = win;
                seq = d.seq;
              })
              t.coin_ledger;
      })
    ]

-- `ProjectAllPayForfeit`
unfoldable pub project_all_pay_forfeit : Write → Option ForfeitPayload → Tables → Outcome
unfolding write insert_coin
project_all_pay_forfeit w none t = (some transient, t)
project_all_pay_forfeit w (some d) t =
    if d.user_id == 0 then (some transient, t) else elim d.coins_forfeit [
      | none ↦ (some transient, t)
      | some coins ↦ write w t (record t {
        coin_ledger =
            insert_coin
              (record {
                user_id = d.user_id;
                delta_coins = pos 0 -ℤ coins;
                reason = runner_up_forfeit;
                seq = d.seq;
              })
              t.coin_ledger;
      })
    ]

pub data OrderRead : Type 0 where
  order_found : Order → OrderRead
  order_error : ProjectError → OrderRead

-- `GetOrder`; the Boolean is a failing read.
unfoldable pub get_order : Bool → Tables → OrderRead
get_order fails t =
    if fails
    then order_error transient
    else elim t.order [ none ↦ order_error not_found | some o ↦ order_found o ]

abbrev is_created : OrderStatus → Bool
is_created created = true
is_created paid = false

-- The comparison of an existing order with the SOLD event.
unfoldable pub order_matches : ℕ → ℕ → ℤ → Order → Bool
order_matches product buyer amount o =
    o.product_id == product
    && (o.buyer_id == buyer)
    && eqb_ℤ o.amount_cents amount
    && is_created o.status

-- The INSERT IGNORE INTO orders, and the check of the row that was there.
unfoldable pub insert_order : Write → Bool → ℕ → ℕ → ℤ → Tables → Outcome
unfolding write get_order order_matches
insert_order w get_fails product buyer amount t = elim t.order [
  | none ↦ write w t (record t {
    order = some (record {
      product_id = product;
      buyer_id = buyer;
      amount_cents = amount;
      status = created;
      paid_at = none;
    });
  })
  | some _ ↦ elim w [
    | write_ok ↦ elim (get_order get_fails t) [
      | order_error e ↦ (some e, t)
      | order_found o ↦
          if order_matches product buyer amount o
          then (none, t)
          else (some order_projection_mismatch, t)
    ]
    | _ ↦ (some transient, t)
  ]
]

-- What the calls of one `CreateOrderFromSold` meet.
pub record OrderFaults : Type 0 where
  pub product_fails : Bool
  pub insert_order : Write
  pub get_order_fails : Bool

-- `CreateOrderFromSold`
unfoldable pub create_order_from_sold : OrderFaults → Option SoldPayload → Tables → Outcome
unfolding insert_order
create_order_from_sold f none t = (some permanent_order_projection, t)
create_order_from_sold f (some d) t =
    if d.winner_id == 0 then (some permanent_order_projection, t) else elim d.amount_cents [
      | none ↦ (some permanent_order_projection, t)
      | some amount ↦ if f.product_fails then (some transient, t) else elim t.auction [
        | none ↦ (some permanent_order_projection, t)
        | some a ↦ insert_order f.insert_order f.get_order_fails a.product_id d.winner_id amount t
      ]
    ]

abbrev pub pay : ℕ → Order → Order
pay now o = if is_created o.status then record o { status = paid; paid_at = some now } else o

abbrev pay_row : ℕ → Option Order → Option Order
pay_row now none = none
pay_row now (some o) = some (pay now o)

-- `PayOrder`
unfoldable pub pay_order : Write → Bool → ℕ → Tables → OrderRead × Tables
unfolding write get_order
pay_order w get_fails now t =
    let (err, t') = write w t (record t { order = pay_row now t.order }) in
    elim err [ none ↦ (get_order get_fails t', t') | some e ↦ (order_error e, t') ]
