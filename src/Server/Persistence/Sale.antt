-- ===== src/Server/Persistence/Sale.antt =====
-- The sale for an order, call by call.
use live_auction_system.Prelude.{
  ℕ, ◌≡◌, ◌∙◌, ◌⊎◌, refl, Bool, true, false, Option, none, some, if◌then◌else◌, ◌==◌, arith, inl,
  inr,
}
use live_auction_system.Prelude.Int.{ℤ}
use live_auction_system.Model.Status.{Status, order_created, sold}
use live_auction_system.Store.Orders.{
  Tables, Write, SoldPayload, ProjectError, order_projection_mismatch, created, write_failed,
  write_lost, AuctionRow, Order, transient, write_ok, write, finalize_auction_sold,
  update_auction_status, create_order_from_sold, insert_order, get_order, order_matches,
}
use live_auction_system.Server.Persistence.{
  SoldFaults, has_all_pay_rules, finalize, mark_sold, settle, project_sold, is_order_created,
}

abbrev pub no_faults : SoldFaults
no_faults = record {
  get_auction_fails = false;
  finalize = write_ok;
  mark_sold = write_ok;
  get_rules_fails = false;
  ledger = write_ok;
  order = record { product_fails = false; insert_order = write_ok; get_order_fails = false };
  mark_created = write_ok;
}

is_nil : Option ProjectError → Bool
is_nil none = true
is_nil (some _) = false

-- An auction that sells for an order.
module _ (d : SoldPayload) (t : Tables) (a : AuctionRow) (amount : ℤ) where
  abbrev row : Status → ℤ → ℕ → AuctionRow
  row s price winner = record a { status = s; current_price_cents = price; winner_id = winner }

  abbrev at : AuctionRow → Option Order → Tables
  at x o = record t { auction = some x; order = o }

  abbrev new_order : Order
  new_order = record {
    product_id = a.product_id;
    buyer_id = d.winner_id;
    amount_cents = amount;
    status = created;
    paid_at = none;
  }

  -- What the INSERT does to the order.
  ins : Write → Bool → Option Order → Option ProjectError × Option Order
  ins write_ok g none = (none, some new_order)
  ins write_failed g none = (some transient, none)
  ins write_lost g none = (some transient, some new_order)
  ins write_ok g (some o) = (
    if g
        then some transient
        else if order_matches a.product_id d.winner_id amount o
        then none
        else some order_projection_mismatch,
    some o,
  )
  ins _ g (some o) = (some transient, some o)

  insert_order-at :
      (w : Write) (g : Bool) (x : AuctionRow) (o : Option Order)
      → insert_order w g a.product_id d.winner_id amount (at x o)
        ≡ ((ins w g o).0, at x (ins w g o).1)
  unfolding insert_order write get_order ins
  insert_order-at w g x o = ground arith

  -- An INSERT leaves the order, or does what the one that succeeds does.
  ins_cases :
      (w : Write) (g : Bool) (o : Option Order)
      → ((ins w g o).1 ≡ o × is_nil (ins w g o).0 ≡ false)
        ⊎ ((ins w g o).1 ≡ (ins write_ok false o).1 × is_nil (ins write_ok false o).0 ≡ true)
  unfolding ins is_nil
  ins_cases w g o = ground arith

  -- Nothing changes when it is done again.
  ins_again :
      (o : Option Order)
      → is_nil (ins write_ok false o).0 ≡ true
      → ins write_ok false (ins write_ok false o).1 ≡ ins write_ok false o
  unfolding ins is_nil order_matches
  ins_again o h = ground arith

  stamp : Status → AuctionRow
  stamp s = row (if is_order_created s then s else sold) amount d.winner_id

  done : Status → Option ProjectError → AuctionRow
  done s e = if is_nil e then row order_created amount d.winner_id else stamp s

  module _ (parsed : d.amount_cents ≡ some amount) (winner : (d.winner_id == 0) ≡ false)
      (gate : has_all_pay_rules t.rules_mode ≡ false) where
    project_sold-at :
        (s : Status) (price : ℤ) (w : ℕ) (o : Option Order)
        → project_sold no_faults (some d) (at (row s price w) o) ≡ (
          (ins write_ok false o).0,
          at (done s (ins write_ok false o).0) (ins write_ok false o).1,
        )
    unfolding project_sold finalize write finalize_auction_sold mark_sold settle
        update_auction_status create_order_from_sold stamp done is_nil
    project_sold-at s price w o =
        ground (arith, parsed, winner, gate, insert_order-at write_ok false (stamp s) o)

    settle_cases :
        (f : SoldFaults) (x : AuctionRow) (o : Option Order)
        → x.product_id ≡ a.product_id
        → let u = (settle f (some d) (at x o)).1 in
          (u ≡ at x o)
          ⊎ ((is_nil (ins write_ok false o).0 ≡ true)
              × ((u ≡ at x (ins write_ok false o).1)
                  ⊎ (u ≡ at (record x { status = order_created }) (ins write_ok false o).1)))
    unfolding settle write update_auction_status create_order_from_sold is_nil
    settle_cases f x o same = ground (
      arith,
      same,
      parsed,
      winner,
      gate,
      insert_order-at f.order.insert_order f.order.get_order_fails x o,
      ins_cases f.order.insert_order f.order.get_order_fails o,
    )

    attempt_cases :
        (f : SoldFaults) (s : Status) (price : ℤ) (w : ℕ) (o : Option Order)
        → let u = (project_sold f (some d) (at (row s price w) o)).1 in
          (u ≡ at (row s price w) o)
          ⊎ (u ≡ at (row s amount d.winner_id) o)
          ⊎ (u ≡ at (stamp s) o)
          ⊎ (u ≡ (settle f (some d) (at (stamp s) o)).1)
    unfolding project_sold finalize write finalize_auction_sold mark_sold update_auction_status
        stamp
    attempt_cases f s price w o = ground (arith, parsed, winner)

    -- Tables that agree on what is not overwritten have the same outcome.
    same_outcome :
        (s s' : Status) (price price' : ℤ) (w w' : ℕ) (o o' : Option Order) (u : Tables)
        → u ≡ at (row s' price' w') o'
        → ins write_ok false o' ≡ ins write_ok false o
        → done s' (ins write_ok false o).0 ≡ done s (ins write_ok false o).0
        → project_sold no_faults (some d) u ≡ project_sold no_faults (some d) (at (row s price w) o)
    same_outcome s s' price price' w w' o o' u e i h =
        rw (e, project_sold-at s' price' w' o', project_sold-at s price w o, i, h)

    stamp-stamp : (s : Status) (e : Option ProjectError) → done (stamp s).status e ≡ done s e
    unfolding done stamp is_order_created is_nil
    stamp-stamp s e = ground arith

    done_nil : (s s' : Status) (e : Option ProjectError) → is_nil e ≡ true → done s' e ≡ done s e
    unfolding done
    done_nil s s' e h = ground (arith, h)

    pub retry_at :
        (f : SoldFaults) (s : Status) (price : ℤ) (w : ℕ) (o : Option Order)
        → project_sold no_faults (some d) (project_sold f (some d) (at (row s price w) o)).1
          ≡ project_sold no_faults (some d) (at (row s price w) o)
    unfolding stamp
    retry_at f s price w o =
        let s' = (stamp s).status in
        let again = stamp-stamp s (ins write_ok false o).0 in
        let same = same_outcome s in
        elim (attempt_cases f s price w o) [
          | inl e ↦ rw e
          | inr (inl e) ↦ same s price amount w d.winner_id o o _ e refl refl
          | inr (inr (inl e)) ↦ same s' price amount w d.winner_id o o _ e refl again
          | inr (inr (inr e)) ↦ elim (settle_cases f (stamp s) o refl) [
            | inl e' ↦ same s' price amount w d.winner_id o o _ (e ∙ e') refl again
            | inr (h, inl e') ↦
                same s' price amount w d.winner_id o (ins write_ok false o).1 _ (e ∙ e')
                  (ins_again o h) again
            | inr (h, inr e') ↦
                same order_created price amount w d.winner_id o (ins write_ok false o).1 _ (e ∙ e')
                  (ins_again o h) (done_nil s order_created (ins write_ok false o).0 h)
          ]
        ]
