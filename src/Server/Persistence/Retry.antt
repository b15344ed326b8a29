-- ===== src/Server/Persistence/Retry.antt =====
-- Attempts that fail, and the one that succeeds.
use live_auction_system.Prelude.{
  ◌≡◌, ◌∙◌, ap, sym, All, refl, true, false, Option, none, some, ◌==◌, List, [], ◌∷◌, arith,
  Option-cases, Bool-cases, inl, inr,
}
use live_auction_system.Prelude.Int.{ℤ}
use live_auction_system.Model.Mode.{Mode}
use live_auction_system.Model.Status.{order_created}
use live_auction_system.Store.Orders.{
  Tables, SoldPayload, AuctionRow, Order, created, write, finalize_auction_sold,
  update_auction_status, project_all_pay_win, create_order_from_sold, insert_order, get_order,
  order_matches, insert_coin, has_coin,
}
use live_auction_system.Server.Persistence.{
  SoldFaults, has_all_pay_rules, finalize, mark_sold, settle, project_sold, is_order_created,
}
use live_auction_system.Server.Persistence.Sale.{no_faults, retry_at}
use live_auction_system.Server.Persistence.Keeps.{project_sold-rules}

retry_all_pay :
    (f : SoldFaults) (d : Option SoldPayload) (t : Tables)
    → has_all_pay_rules t.rules_mode ≡ true
    → f.get_rules_fails ≡ false
    → project_sold no_faults d (project_sold f d t).1 ≡ project_sold no_faults d t
unfolding project_sold finalize write finalize_auction_sold mark_sold settle update_auction_status
    project_all_pay_win create_order_from_sold insert_order get_order order_matches insert_coin
    has_coin is_order_created
retry_all_pay f d t gate reads = ground (arith, gate, reads)

module _ (f : SoldFaults) (d : SoldPayload) (t : Tables)
    (gate : has_all_pay_rules t.rules_mode ≡ false) where
  retry_absent :
      t.auction ≡ none
      → project_sold no_faults (some d) (project_sold f (some d) t).1
        ≡ project_sold no_faults (some d) t
  unfolding project_sold finalize write mark_sold settle update_auction_status
      create_order_from_sold is_order_created
  retry_absent absent = ground (arith, absent)

  module _ (a : AuctionRow) (present : t.auction ≡ some a) where
    retry_unparsed :
        d.amount_cents ≡ none
        → project_sold no_faults (some d) (project_sold f (some d) t).1
          ≡ project_sold no_faults (some d) t
    unfolding project_sold finalize write finalize_auction_sold mark_sold settle
        update_auction_status create_order_from_sold is_order_created
    retry_unparsed bad = ground (arith, gate, present, bad)

    module _ (amount : ℤ) (parsed : d.amount_cents ≡ some amount) where
      retry_nobody :
          (d.winner_id == 0) ≡ true
          → project_sold no_faults (some d) (project_sold f (some d) t).1
            ≡ project_sold no_faults (some d) t
      unfolding project_sold finalize write finalize_auction_sold mark_sold settle
          update_auction_status create_order_from_sold is_order_created
      retry_nobody nobody = ground (arith, gate, present, parsed, nobody)

      retry_sale :
          (d.winner_id == 0) ≡ false
          → project_sold no_faults (some d) (project_sold f (some d) t).1
            ≡ project_sold no_faults (some d) t
      retry_sale winner =
          let eta = ap (λ x. record t { auction = x }) present in
          let again =
            retry_at d t a amount parsed winner gate f a.status a.current_price_cents a.winner_id
              t.order in
          ap (λ u. project_sold no_faults (some d) (project_sold f (some d) u).1) eta
          ∙ again
          ∙ sym (ap (project_sold no_faults (some d)) eta)

retry_malformed :
    (f : SoldFaults) (t : Tables)
    → has_all_pay_rules t.rules_mode ≡ false
    → project_sold no_faults none (project_sold f none t).1 ≡ project_sold no_faults none t
unfolding project_sold finalize write finalize_auction_sold mark_sold settle update_auction_status
    create_order_from_sold is_order_created
retry_malformed f t gate = ground (arith, gate)

retry_order :
    (f : SoldFaults) (d : Option SoldPayload) (t : Tables)
    → has_all_pay_rules t.rules_mode ≡ false
    → project_sold no_faults d (project_sold f d t).1 ≡ project_sold no_faults d t
retry_order f none t gate = retry_malformed f t gate
retry_order f (some d) t gate = elim (Option-cases t.auction) [
  | inl absent ↦ retry_absent f d t gate absent
  | inr (a, present) ↦ elim (Option-cases d.amount_cents) [
    | inl bad ↦ retry_unparsed f d t gate a present bad
    | inr (amount, parsed) ↦ elim (Bool-cases (d.winner_id == 0)) [
      | inl nobody ↦ retry_nobody f d t gate a present amount parsed nobody
      | inr winner ↦ retry_sale f d t gate a present amount parsed winner
    ]
  ]
]

-- `projectSold` on the tables that a list of attempts leaves.
unfoldable pub attempts : Option SoldPayload → List SoldFaults → Tables → Tables
unfolding project_sold
attempts d [] t = t
attempts d (f ∷ fs) t = attempts d fs (project_sold f d t).1

-- Of an ALL_PAY auction the rules must be read.
abbrev pub ReadsRules : Option Mode → SoldFaults → Type 0
ReadsRules mode f = has_all_pay_rules mode ≡ true → f.get_rules_fails ≡ false

retry_once :
    (f : SoldFaults) (d : Option SoldPayload) (t : Tables)
    → ReadsRules t.rules_mode f
    → project_sold no_faults d (project_sold f d t).1 ≡ project_sold no_faults d t
retry_once f d t reads = elim (Bool-cases (has_all_pay_rules t.rules_mode)) [
  | inl gate ↦ retry_all_pay f d t gate (reads gate)
  | inr gate ↦ retry_order f d t gate
]

-- Whatever the attempts before it met, lost replies of writes included, an attempt of `projectSold`
-- without a fault ends as it would have ended as the first one, with the same error or none and the
-- same tables, if on an ALL_PAY auction no attempt failed to read the rules.
pub retry_converges :
    (d : Option SoldPayload) (fs : List SoldFaults) (t : Tables)
    → All (ReadsRules t.rules_mode) fs
    → project_sold no_faults d (attempts d fs t) ≡ project_sold no_faults d t
unfolding attempts
retry_converges d [] t reads = refl
retry_converges d (f ∷ fs) t reads =
    retry_converges d fs (project_sold f d t).1 (rw (project_sold-rules f d t) (reads.1))
    ∙ retry_once f d t reads.0

-- The order of a sale.
abbrev pub sale_order : AuctionRow → SoldPayload → ℤ → Order
sale_order a d amount = record {
  product_id = a.product_id;
  buyer_id = d.winner_id;
  amount_cents = amount;
  status = created;
  paid_at = none;
}

sold_first :
    (d : SoldPayload) (t : Tables) (a : AuctionRow) (amount : ℤ)
    → has_all_pay_rules t.rules_mode ≡ false
    → t.auction ≡ some a
    → t.order ≡ none
    → d.amount_cents ≡ some amount
    → (d.winner_id == 0) ≡ false
    → project_sold no_faults (some d) t ≡ (
      none,
      record t {
        auction = some (record a {
          status = order_created;
          current_price_cents = amount;
          winner_id = d.winner_id;
        });
        order = some (sale_order a d amount);
      },
    )
unfolding project_sold finalize write finalize_auction_sold mark_sold settle update_auction_status
    create_order_from_sold insert_order
sold_first d t a amount gate present n parsed winner =
    ground (arith, gate, present, n, parsed, winner)

-- Let an auction that is not ALL_PAY have a row and no order, and the SOLD event a winner and an
-- amount. Whatever the attempts before it met, an attempt of `projectSold` without a fault succeeds;
-- it leaves exactly one order, created, for the winner and the amount of the event and the auction's
-- product, and the auction's row at ORDER_CREATED with that price and winner, and nothing else changes.
pub sold_settles :
    (d : SoldPayload) (t : Tables) (a : AuctionRow) (amount : ℤ) (fs : List SoldFaults)
    → has_all_pay_rules t.rules_mode ≡ false
    → t.auction ≡ some a
    → t.order ≡ none
    → d.amount_cents ≡ some amount
    → (d.winner_id == 0) ≡ false
    → project_sold no_faults (some d) (attempts (some d) fs t) ≡ (
      none,
      record t {
        auction = some (record a {
          status = order_created;
          current_price_cents = amount;
          winner_id = d.winner_id;
        });
        order = some (sale_order a d amount);
      },
    )
sold_settles d t a amount fs gate present n parsed winner =
    retry_converges (some d) fs t (reads_any fs)
    ∙ sold_first d t a amount gate present n parsed winner
  where
    reads_any : (gs : List SoldFaults) → All (ReadsRules t.rules_mode) gs
    reads_any [] = tt
    reads_any (g ∷ gs) = ((λ yes_gate. ground (arith, gate, yes_gate)), reads_any gs)
