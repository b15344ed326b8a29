-- ===== src/Server/Persistence/Calls.antt =====
-- The calls that touch an auction's order, in any order and with any faults: the projections of
-- AUCTION_SOLD and ALL_PAY_FORFEIT, and `PayOrder`.
use live_auction_system.Prelude.{
  ℕ, ◌≡◌, ◌∙◌, ◌⊎◌, inl, inr, refl, Bool, true, false, Option, none, some, List, [], ◌∷◌, arith,
}
use live_auction_system.Model.Status.{Status}
use live_auction_system.Store.Orders.{
  Tables, Write, Order, OrderFaults, SoldPayload, ForfeitPayload, write, paid,
  finalize_auction_sold, update_auction_status, project_all_pay_win, project_all_pay_forfeit,
  create_order_from_sold, insert_order, get_order, pay_order, pay,
}
use live_auction_system.Server.Persistence.{
  SoldFaults, has_all_pay_rules, finalize, mark_sold, settle, project_sold,
}
use live_auction_system.Server.Persistence.Keeps.{
  project_sold-keeps, finalize-rules, mark_sold-rules,
}

pub data Call : Type 0 where
  call_sold : SoldFaults → Option SoldPayload → Call
  call_forfeit : Write → Option ForfeitPayload → Call
  call_pay : Write → Bool → ℕ → Call

unfoldable pub call : Call → Tables → Tables
unfolding project_sold project_all_pay_forfeit pay_order
call (call_sold f d) t = (project_sold f d t).1
call (call_forfeit w d) t = (project_all_pay_forfeit w d t).1
call (call_pay w g now) t = (pay_order w g now t).1

unfoldable pub calls : List Call → Tables → Tables
unfolding call
calls [] t = t
calls (c ∷ cs) t = calls cs (call c t)

-- The order is of the same sale as a given one.
abbrev pub Keeps : Order → Tables → Type 0
Keeps o t =
    (p : Order) × (t.order ≡ some p)
    × (p.product_id ≡ o.product_id)
    × (p.buyer_id ≡ o.buyer_id)
    × (p.amount_cents ≡ o.amount_cents)

pub finalize-order :
    (w : Write) (d : Option SoldPayload) (t : Tables) → (finalize w d t).1.order ≡ t.order
unfolding finalize write finalize_auction_sold
finalize-order w d t = ground arith

pub mark_sold-order : (w : Write) (s : Status) (t : Tables) → (mark_sold w s t).1.order ≡ t.order
unfolding mark_sold write update_auction_status
mark_sold-order w s t = ground arith

create_order-order :
    (f : OrderFaults) (d : Option SoldPayload) (t : Tables) (o : Order)
    → t.order ≡ some o
    → (create_order_from_sold f d t).1.order ≡ some o
unfolding write create_order_from_sold insert_order get_order
create_order-order f d t o h = ground (arith, h)

pub pay_win-order :
    (w : Write) (d : Option SoldPayload) (t : Tables)
    → (project_all_pay_win w d t).1.order ≡ t.order
unfolding write project_all_pay_win
pay_win-order w d t = ground arith

pub settle-order :
    (f : SoldFaults) (d : Option SoldPayload) (t : Tables) (o : Order)
    → t.order ≡ some o
    → (settle f d t).1.order ≡ some o
unfolding settle write update_auction_status
settle-order f d t o h =
    ground (arith, h, pay_win-order f.ledger d t, create_order-order f.order d t o h)

pub project_sold-order :
    (f : SoldFaults) (d : Option SoldPayload) (t : Tables) (o : Order)
    → t.order ≡ some o
    → (project_sold f d t).1.order ≡ some o
project_sold-order f d t o h =
    project_sold-keeps (λ u. u.order ≡ some o) f d (λ u k. finalize-order f.finalize d u ∙ k)
      (λ s u k. mark_sold-order f.mark_sold s u ∙ k) (λ u k. settle-order f d u o k) t h

pub forfeit-order :
    (w : Write) (d : Option ForfeitPayload) (t : Tables)
    → (project_all_pay_forfeit w d t).1.order ≡ t.order
unfolding write project_all_pay_forfeit
forfeit-order w d t = ground arith

pub pay_order-order :
    (w : Write) (g : Bool) (now : ℕ) (t : Tables) (p : Order)
    → t.order ≡ some p
    → ((pay_order w g now t).1.order ≡ some p) ⊎ ((pay_order w g now t).1.order ≡ some (pay now p))
unfolding write pay_order get_order
pay_order-order w g now t p h = ground (arith, h)

call-Keeps : (o : Order) (c : Call) (t : Tables) → Keeps o t → Keeps o (call c t)
unfolding call
call-Keeps o (call_sold f d) t k = (k.0, project_sold-order f d t k.0 k.1, k.2, k.3, k.4)
call-Keeps o (call_forfeit w d) t k = (k.0, forfeit-order w d t ∙ k.1, k.2, k.3, k.4)
call-Keeps o (call_pay w g now) t k = elim (pay_order-order w g now t k.0 k.1) [
  | inl same ↦ (k.0, same, k.2, k.3, k.4)
  | inr settled ↦
      (pay now k.0, settled, ground (arith, k.2), ground (arith, k.3), ground (arith, k.4))
]

calls-Keeps : (o : Order) (cs : List Call) (t : Tables) → Keeps o t → Keeps o (calls cs t)
unfolding calls
calls-Keeps o [] t k = k
calls-Keeps o (c ∷ cs) t k = calls-Keeps o cs (call c t) (call-Keeps o c t k)

call-paid :
    (o : Order) (c : Call) (t : Tables)
    → o.status ≡ paid
    → t.order ≡ some o
    → (call c t).order ≡ some o
unfolding call
call-paid o (call_sold f d) t p h = project_sold-order f d t o h
call-paid o (call_forfeit w d) t p h = forfeit-order w d t ∙ h
call-paid o (call_pay w g now) t p h = ground (arith, p, pay_order-order w g now t o h)

-- An order that is there stays there whatever calls follow, with its product, its buyer and its
-- amount.
pub order_frozen :
    (o : Order) (cs : List Call) (t : Tables) → t.order ≡ some o → Keeps o (calls cs t)
order_frozen o cs t h = calls-Keeps o cs t (o, h, refl, refl, refl)

-- An order that is paid does not change whatever calls follow.
pub paid_frozen :
    (o : Order) (cs : List Call) (t : Tables)
    → o.status ≡ paid
    → t.order ≡ some o
    → (calls cs t).order ≡ some o
unfolding calls
paid_frozen o [] t p h = h
paid_frozen o (c ∷ cs) t p h = paid_frozen o cs (call c t) p (call-paid o c t p h)

-- The projections of a sale read the rules.
abbrev pub ReadsAll : List Call → Type 0
ReadsAll [] = Unit {0}
ReadsAll (call_sold f d ∷ cs) = (f.get_rules_fails ≡ false) × ReadsAll cs
ReadsAll (_ ∷ cs) = ReadsAll cs

-- An ALL_PAY auction without an order.
abbrev pub Unordered : Tables → Type 0
Unordered t = (has_all_pay_rules t.rules_mode ≡ true) × (t.order ≡ none)

settle-Unordered :
    (f : SoldFaults) (d : Option SoldPayload) (t : Tables)
    → f.get_rules_fails ≡ false
    → Unordered t
    → Unordered (settle f d t).1
unfolding settle project_all_pay_win write
settle-Unordered f d t reads u = ground (arith, reads, u.0, u.1)

project_sold-Unordered :
    (f : SoldFaults) (d : Option SoldPayload) (t : Tables)
    → f.get_rules_fails ≡ false
    → Unordered t
    → Unordered (project_sold f d t).1
project_sold-Unordered f d t reads u =
    project_sold-keeps Unordered f d (λ v k. by_finalize v k) (λ s v k. by_mark s v k)
      (λ v k. settle-Unordered f d v reads k) t u
  where
    by_finalize : (v : Tables) → Unordered v → Unordered (finalize f.finalize d v).1
    by_finalize v k = (rw (finalize-rules f.finalize d v) k.0, finalize-order f.finalize d v ∙ k.1)

    by_mark : (s : Status) (v : Tables) → Unordered v → Unordered (mark_sold f.mark_sold s v).1
    by_mark s v k =
        (rw (mark_sold-rules f.mark_sold s v) k.0, mark_sold-order f.mark_sold s v ∙ k.1)

forfeit-Unordered :
    (w : Write) (d : Option ForfeitPayload) (t : Tables)
    → Unordered t
    → Unordered (project_all_pay_forfeit w d t).1
unfolding project_all_pay_forfeit write
forfeit-Unordered w d t u = ground (arith, u.0, u.1)

pay_order-Unordered :
    (w : Write) (g : Bool) (now : ℕ) (t : Tables) → Unordered t → Unordered (pay_order w g now t).1
unfolding pay_order write
pay_order-Unordered w g now t u = ground (arith, u.0, u.1)

call-Unordered :
    (c : Call) (cs : List Call) (t : Tables)
    → ReadsAll (c ∷ cs)
    → Unordered t
    → Unordered (call c t) × ReadsAll cs
unfolding call
call-Unordered (call_sold f d) cs t reads u = (project_sold-Unordered f d t reads.0 u, reads.1)
call-Unordered (call_forfeit w d) cs t reads u = (forfeit-Unordered w d t u, reads)
call-Unordered (call_pay w g now) cs t reads u = (pay_order-Unordered w g now t u, reads)

-- On an ALL_PAY auction without an order, no calls create one, if every projection of the sale could
-- read the rules.
pub all_pay-no_order :
    (cs : List Call) (t : Tables)
    → has_all_pay_rules t.rules_mode ≡ true
    → t.order ≡ none
    → ReadsAll cs
    → (calls cs t).order ≡ none
unfolding calls
all_pay-no_order [] t gate n reads = n
all_pay-no_order (c ∷ cs) t gate n reads =
    let (u, rest) = call-Unordered c cs t reads (gate, n) in
    all_pay-no_order cs (call c t) u.0 u.1 rest
