-- ===== src/Server/Persistence/OrderLife.antt =====
-- The life of an auction's order, as an abstract machine that the calls refine.
use mathlib.Core.Path.{subst}
use live_auction_system.Prelude.{
  ℕ, ◌≡◌, ◌⊎◌, ◌∙◌, sym, inl, inr, refl, ap, Bool, Option, none, some, List, [], ◌∷◌, arith,
  Option-cases,
}
use live_auction_system.Prelude.Int.{ℤ}
use live_auction_system.Store.Orders.{
  Tables, Write, AuctionRow, Order, OrderStatus, OrderFaults, SoldPayload, created, paid, write,
  pay_order, pay, create_order_from_sold, insert_order, update_auction_status,
  project_all_pay_forfeit,
}
use live_auction_system.Server.Persistence.{SoldFaults, finalize, mark_sold, settle, project_sold}
use live_auction_system.Server.Persistence.Keeps.{project_sold-keeps}
use live_auction_system.Server.Persistence.Calls.{
  Call, call_sold, call_forfeit, call_pay, call, calls, finalize-order, mark_sold-order,
  pay_win-order, settle-order, project_sold-order, forfeit-order, pay_order-order,
}

-- No order, one that is owed, and one that is paid.
pub data Life : Type 0 where
  unsold : Life
  owed : ℕ → ℕ → ℤ → Life
  settled : ℕ → ℕ → ℤ → Option ℕ → Life

abbrev life_as : OrderStatus → Order → Life
life_as created o = owed o.product_id o.buyer_id o.amount_cents
life_as paid o = settled o.product_id o.buyer_id o.amount_cents o.paid_at

abbrev pub life : Option Order → Life
life none = unsold
life (some o) = life_as o.status o

-- One step of the abstract machine: a sale makes an order for its winner and amount, and a payment
-- pays an order that is owed. Every call may also leave the order as it is.
pub data Advance : Call → Life → Life → Type 0 where
  stays : {c : Call} {l : Life} → Advance c l l
  sells :
      {f : SoldFaults} {d : SoldPayload} {product : ℕ} {amount : ℤ}
      → d.amount_cents ≡ some amount
      → Advance (call_sold f (some d)) unsold (owed product d.winner_id amount)
  pays :
      {w : Write} {g : Bool} {now : ℕ} {product buyer : ℕ} {amount : ℤ}
      → Advance
          (call_pay w g now)
          (owed product buyer amount)
          (settled product buyer amount (some now))

-- Steps for a list of calls.
pub data Advances : List Call → Life → Life → Type 0 where
  finished : {l : Life} → Advances [] l l
  advances :
      {c : Call} {cs : List Call} {l m n : Life}
      → Advance c l m
      → Advances cs m n
      → Advances (c ∷ cs) l n

-- The order that a sale makes.
abbrev sale_of : ℕ → SoldPayload → ℤ → Order
sale_of product d amount = record {
  product_id = product;
  buyer_id = d.winner_id;
  amount_cents = amount;
  status = created;
  paid_at = none;
}

-- No order, or that of the sale.
abbrev Sold : Option SoldPayload → Tables → Type 0
Sold d t =
    (t.order ≡ none)
    ⊎ ((sale : SoldPayload) × (product : ℕ) × (amount : ℤ) × (d ≡ some sale)
        × (sale.amount_cents ≡ some amount)
        × (t.order ≡ some (sale_of product sale amount)))

insert_order-cases :
    (w : Write) (g : Bool) (product : ℕ) (d : SoldPayload) (amount : ℤ) (t : Tables)
    → t.order ≡ none
    → ((insert_order w g product d.winner_id amount t).1.order ≡ none)
      ⊎ ((insert_order w g product d.winner_id amount t).1.order ≡ some (sale_of product d amount))
unfolding insert_order write
insert_order-cases w g product d amount t h = ground (arith, h)

create_order-unparsed :
    (f : OrderFaults) (d : SoldPayload) (t : Tables)
    → d.amount_cents ≡ none
    → (create_order_from_sold f (some d) t).1.order ≡ t.order
unfolding create_order_from_sold
create_order-unparsed f d t h = ground (arith, h)

create_order-absent :
    (f : OrderFaults) (d : SoldPayload) (t : Tables)
    → t.auction ≡ none
    → (create_order_from_sold f (some d) t).1.order ≡ t.order
unfolding create_order_from_sold
create_order-absent f d t h = ground (arith, h)

create_order-cases :
    (f : OrderFaults) (d : SoldPayload) (amount : ℤ) (a : AuctionRow) (t : Tables)
    → d.amount_cents ≡ some amount
    → t.auction ≡ some a
    → ((create_order_from_sold f (some d) t).1.order ≡ t.order)
      ⊎ ((create_order_from_sold f (some d) t).1.order
          ≡ (insert_order f.insert_order f.get_order_fails a.product_id d.winner_id amount
              t).1.order)
unfolding create_order_from_sold
create_order-cases f d amount a t parsed present = ground (arith, parsed, present)

create_order-malformed :
    (f : OrderFaults) (t : Tables) → (create_order_from_sold f none t).1.order ≡ t.order
unfolding create_order_from_sold
create_order-malformed f t = refl

create_order-Sold :
    (f : OrderFaults) (d : Option SoldPayload) (t : Tables)
    → t.order ≡ none
    → Sold d (create_order_from_sold f d t).1
create_order-Sold f none t h = inl (create_order-malformed f t ∙ h)
create_order-Sold f (some d) t h = elim (Option-cases d.amount_cents) [
  | inl bad ↦ inl (create_order-unparsed f d t bad ∙ h)
  | inr (amount, parsed) ↦ elim (Option-cases t.auction) [
    | inl absent ↦ inl (create_order-absent f d t absent ∙ h)
    | inr (a, present) ↦ elim (create_order-cases f d amount a t parsed present) [
      | inl same ↦ inl (same ∙ h)
      | inr inserted ↦
          elim (insert_order-cases f.insert_order f.get_order_fails a.product_id d amount t h) [
            | inl still ↦ inl (inserted ∙ still)
            | inr new ↦ inr (d, a.product_id, amount, refl, parsed, inserted ∙ new)
          ]
    ]
  ]
]

settle-cases :
    (f : SoldFaults) (d : Option SoldPayload) (t : Tables)
    → ((settle f d t).1.order ≡ t.order)
      ⊎ ((settle f d t).1.order ≡ (create_order_from_sold f.order d t).1.order)
unfolding settle update_auction_status write
settle-cases f d t = ground (arith, pay_win-order f.ledger d t)

-- The sale is there already, or it is made now.
settle-Sold :
    (f : SoldFaults) (d : Option SoldPayload) (t : Tables) → Sold d t → Sold d (settle f d t).1
settle-Sold f d t (inl h) = elim (settle-cases f d t) [
  | inl same ↦ inl (same ∙ h)
  | inr made ↦ elim (create_order-Sold f.order d t h) [
    | inl still ↦ inl (made ∙ still)
    | inr (sale, product, amount, e, parsed, new) ↦
        inr (sale, product, amount, e, parsed, made ∙ new)
  ]
]
settle-Sold f d t (inr (sale, product, amount, e, parsed, there)) =
    inr (sale, product, amount, e, parsed, settle-order f d t (sale_of product sale amount) there)

same-Sold : (d : Option SoldPayload) (t u : Tables) → u.order ≡ t.order → Sold d t → Sold d u
same-Sold d t u h (inl e) = inl (h ∙ e)
same-Sold d t u h (inr (sale, product, amount, e, parsed, there)) =
    inr (sale, product, amount, e, parsed, h ∙ there)

project_sold-Sold :
    (f : SoldFaults) (d : Option SoldPayload) (t : Tables)
    → t.order ≡ none
    → Sold d (project_sold f d t).1
project_sold-Sold f d t h =
    project_sold-keeps (Sold d) f d
      (λ u k. same-Sold d u (finalize f.finalize d u).1 (finalize-order f.finalize d u) k)
      (λ s u k. same-Sold d u (mark_sold f.mark_sold s u).1 (mark_sold-order f.mark_sold s u) k)
      (λ u k. settle-Sold f d u k) t (inl h)

-- A call that leaves the order alone.
unmoved : (c : Call) (p q : Option Order) → q ≡ p → Advance c (life p) (life q)
unmoved c p q h = subst (λ x. Advance c (life p) (life x)) (sym h) stays

sold_Advance :
    (f : SoldFaults) (d : Option SoldPayload) (t : Tables)
    → Advance (call_sold f d) (life t.order) (life (project_sold f d t).1.order)
sold_Advance f d t = elim (Option-cases t.order) [
  | inr (o, there) ↦
      unmoved (call_sold f d) t.order (project_sold f d t).1.order
        (project_sold-order f d t o there ∙ sym there)
  | inl nothing ↦ elim (project_sold-Sold f d t nothing) [
    | inl still ↦ unmoved (call_sold f d) t.order (project_sold f d t).1.order (still ∙ sym nothing)
    | inr (sale, product, amount, e, parsed, new) ↦
        subst (λ x. Advance (call_sold f x) (life t.order) (life (project_sold f d t).1.order))
          (sym e)
          (subst
            (λ x. Advance (call_sold f (some sale)) (life x) (life (project_sold f d t).1.order))
            (sym nothing)
            (subst (λ x. Advance (call_sold f (some sale)) unsold (life x)) (sym new)
              (sells parsed)))
  ]
]

life-created :
    (o : Order) → o.status ≡ created → life (some o) ≡ owed o.product_id o.buyer_id o.amount_cents
life-created o h = ap (λ s. life_as s o) h

life-pay :
    (now : ℕ) (o : Order)
    → o.status ≡ created
    → life (some (pay now o)) ≡ settled o.product_id o.buyer_id o.amount_cents (some now)
life-pay now o h = ground (arith, h)

pay-paid : (now : ℕ) (o : Order) → o.status ≡ paid → some (pay now o) ≡ some o
pay-paid now o h = ground (arith, h)

paying_Advance :
    (w : Write) (g : Bool) (now : ℕ) (s : OrderStatus) (o : Order)
    → o.status ≡ s
    → Advance (call_pay w g now) (life (some o)) (life (some (pay now o)))
paying_Advance w g now created o h =
    subst (λ l. Advance (call_pay w g now) l (life (some (pay now o)))) (sym (life-created o h))
      (subst (λ l. Advance (call_pay w g now) (owed o.product_id o.buyer_id o.amount_cents) l)
        (sym (life-pay now o h)) pays)
paying_Advance w g now paid o h =
    unmoved (call_pay w g now) (some o) (some (pay now o)) (pay-paid now o h)

pay_order-none :
    (w : Write) (g : Bool) (now : ℕ) (t : Tables)
    → t.order ≡ none
    → (pay_order w g now t).1.order ≡ none
unfolding pay_order write
pay_order-none w g now t h = ground (arith, h)

pay_Advance :
    (w : Write) (g : Bool) (now : ℕ) (t : Tables)
    → Advance (call_pay w g now) (life t.order) (life (pay_order w g now t).1.order)
pay_Advance w g now t =
    let c = call_pay w g now in
    let after = (pay_order w g now t).1.order in
    elim (Option-cases t.order) [
      | inl nothing ↦ unmoved c t.order after (pay_order-none w g now t nothing ∙ sym nothing)
      | inr (o, there) ↦ elim (pay_order-order w g now t o there) [
        | inl same ↦ unmoved c t.order after (same ∙ sym there)
        | inr payed ↦
            subst (λ x. Advance c (life x) (life after)) (sym there)
              (subst (λ x. Advance c (life (some o)) (life x)) (sym payed)
                (paying_Advance w g now o.status o refl))
      ]
    ]

call-Advance : (c : Call) (t : Tables) → Advance c (life t.order) (life (call c t).order)
unfolding call
call-Advance (call_sold f d) t = sold_Advance f d t
call-Advance (call_forfeit w d) t =
    unmoved (call_forfeit w d) t.order (project_all_pay_forfeit w d t).1.order (forfeit-order w d t)
call-Advance (call_pay w g now) t = pay_Advance w g now t

-- Whatever the projections and payments, and whatever their faults, the order of an auction goes
-- through the abstract machine: the first sale that makes an order fixes its winner and amount, a payment
-- settles it once, and nothing else happens to it.
pub calls-Advances :
    (cs : List Call) (t : Tables) → Advances cs (life t.order) (life (calls cs t).order)
unfolding calls
calls-Advances [] t = finished
calls-Advances (c ∷ cs) t = advances (call-Advance c t) (calls-Advances cs (call c t))
