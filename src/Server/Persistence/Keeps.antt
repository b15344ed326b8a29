-- ===== src/Server/Persistence/Keeps.antt =====
-- What `projectSold` keeps.
use live_auction_system.Prelude.{
  ◌≡◌, ◌∙◌, refl, Option, none, some, arith, Option-cases, Bool-cases, inl, inr,
}
use live_auction_system.Model.Status.{Status}
use live_auction_system.Store.Orders.{
  Tables, Outcome, Write, SoldPayload, OrderFaults, write, then_do, finalize_auction_sold,
  update_auction_status, project_all_pay_win, create_order_from_sold, insert_order, get_order,
}
use live_auction_system.Server.Persistence.{SoldFaults, finalize, mark_sold, settle, project_sold}

then_do-keeps :
    (P : Tables → Type 0) (o : Outcome) (next : Tables → Outcome)
    → P o.1
    → ((t : Tables) → P t → P (next t).1)
    → P (then_do o next).1
then_do-keeps P (none, t) next h keeps = keeps t h
then_do-keeps P (some e, t) next h keeps = h

module _ (P : Tables → Type 0) (f : SoldFaults) (d : Option SoldPayload)
    (by_finalize : (t : Tables) → P t → P (finalize f.finalize d t).1)
    (by_mark : (s : Status) (t : Tables) → P t → P (mark_sold f.mark_sold s t).1)
    (by_settle : (t : Tables) → P t → P (settle f d t).1) where
  sale-keeps :
      (s : Status) (t : Tables)
      → P t
      → P
          (then_do
            (finalize f.finalize d t)
            (λ t1. then_do (mark_sold f.mark_sold s t1) (settle f d))).1
  sale-keeps s t h =
      then_do-keeps P (finalize f.finalize d t)
        (λ t1. then_do (mark_sold f.mark_sold s t1) (settle f d)) (by_finalize t h)
        (λ t1 h1.
          then_do-keeps P (mark_sold f.mark_sold s t1) (settle f d) (by_mark s t1 h1) by_settle)

  -- What its three steps keep, `projectSold` keeps.
  pub project_sold-keeps : (t : Tables) → P t → P (project_sold f d t).1
  unfolding project_sold
  project_sold-keeps t h = elim (Bool-cases f.get_auction_fails) [
    | inl failed ↦ rw (failed, project_sold) h
    | inr read ↦ elim (Option-cases t.auction) [
      | inl absent ↦ simp (read, project_sold, absent) h
      | inr (a, present) ↦ simp (read, project_sold, present) (sale-keeps a.status t h)
    ]
  ]

pub finalize-rules :
    (w : Write) (d : Option SoldPayload) (t : Tables) → (finalize w d t).1.rules_mode ≡ t.rules_mode
unfolding finalize write finalize_auction_sold
finalize-rules w d t = ground arith

pub mark_sold-rules :
    (w : Write) (s : Status) (t : Tables) → (mark_sold w s t).1.rules_mode ≡ t.rules_mode
unfolding mark_sold write update_auction_status
mark_sold-rules w s t = ground arith

pay_win-rules :
    (w : Write) (d : Option SoldPayload) (t : Tables)
    → (project_all_pay_win w d t).1.rules_mode ≡ t.rules_mode
unfolding write project_all_pay_win
pay_win-rules w d t = ground arith

create_order-rules :
    (f : OrderFaults) (d : Option SoldPayload) (t : Tables)
    → (create_order_from_sold f d t).1.rules_mode ≡ t.rules_mode
unfolding write create_order_from_sold insert_order get_order
create_order-rules f d t = ground arith

settle-rules :
    (f : SoldFaults) (d : Option SoldPayload) (t : Tables)
    → (settle f d t).1.rules_mode ≡ t.rules_mode
unfolding settle write update_auction_status
settle-rules f d t = ground (arith, pay_win-rules f.ledger d t, create_order-rules f.order d t)

pub project_sold-rules :
    (f : SoldFaults) (d : Option SoldPayload) (t : Tables)
    → (project_sold f d t).1.rules_mode ≡ t.rules_mode
project_sold-rules f d t =
    project_sold-keeps (λ u. u.rules_mode ≡ t.rules_mode) f d
      (λ u h. finalize-rules f.finalize d u ∙ h) (λ s u h. mark_sold-rules f.mark_sold s u ∙ h)
      (λ u h. settle-rules f d u ∙ h) t refl
