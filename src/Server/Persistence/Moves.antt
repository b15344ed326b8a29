-- ===== src/Server/Persistence/Moves.antt =====
-- Without a fault, every readable event moves the cursor on.
use live_auction_system.Prelude.{
  ℕ, ◌≡◌, refl, true, false, Option, none, some, ◌==◌, arith, Option-cases, inl, inr,
}
use live_auction_system.Prelude.Int.{ℤ}
use live_auction_system.Model.Events.{EventType, type_auction_sold, type_all_pay_forfeit}
use live_auction_system.Model.Status.{Status}
use live_auction_system.Store.Stream.{StreamEvent}
use live_auction_system.Store.Evidence.{MacInput}
use live_auction_system.Store.Orders.{
  Tables, Outcome, then_do, write, write_ok, SoldPayload, ForfeitPayload, project_all_pay_forfeit,
  project_all_pay_win, create_order_from_sold, insert_order, get_order, finalize_auction_sold,
  update_auction_status,
}
use live_auction_system.Server.Persistence.{
  project_sold, terminal_status, finalize, mark_sold, settle,
}
use live_auction_system.Server.Persistence.Sale.{no_faults}
use live_auction_system.Server.Persistence.Pass.{EventFaults, moves_on, is_nil, settle_event}

abbrev pub calm : StreamEvent → EventFaults
calm _ = record { insert = write_ok; sold = no_faults; forfeit = write_ok; status = write_ok }

module _ (mac : MacInput → ℕ) (evidence_key : ℕ → Option ℕ) (version : ℕ) (key : ℕ)
    (decode_sold : ℕ → Option SoldPayload) (decode_forfeit : ℕ → Option ForfeitPayload) where
  abbrev pub IsSale : Option SoldPayload → Type 0
  IsSale o =
      (d : SoldPayload) × (n : ℤ) × (o ≡ some d)
      × ((d.winner_id == 0) ≡ false)
      × (d.amount_cents ≡ some n)

  abbrev pub IsForfeit : Option ForfeitPayload → Type 0
  IsForfeit o =
      (d : ForfeitPayload) × (n : ℤ) × (o ≡ some d)
      × ((d.user_id == 0) ≡ false)
      × (d.coins_forfeit ≡ some n)

  -- A SOLD or FORFEIT payload names a user and an amount.
  abbrev pub IsReadable : EventType → ℕ → Type 0
  IsReadable type_auction_sold payload = IsSale (decode_sold payload)
  IsReadable type_all_pay_forfeit payload = IsForfeit (decode_forfeit payload)
  IsReadable _ payload = Unit {0}

  finalize_ok : (d : Option SoldPayload) (t : Tables) → (finalize write_ok d t).0 ≡ none
  unfolding finalize write finalize_auction_sold
  finalize_ok d t = ground arith

  mark_sold_ok : (s : Status) (t : Tables) → (mark_sold write_ok s t).0 ≡ none
  unfolding mark_sold write update_auction_status
  mark_sold_ok s t = ground arith

  then_do_ok : (o : Outcome) (next : Tables → Outcome) → o.0 ≡ none → then_do o next ≡ next o.1
  then_do_ok (none, t) next h = refl
  then_do_ok (some e, t) next h = ground (arith, h)

  create_moves :
      (o : Option SoldPayload) (t : Tables)
      → IsSale o
      → moves_on (create_order_from_sold no_faults.order o t).0 ≡ true
  unfolding moves_on write create_order_from_sold insert_order get_order
  create_moves o t (d, n, read, winner, parsed) = ground (arith, read, winner, parsed)

  win_moves :
      (o : Option SoldPayload) (t : Tables)
      → IsSale o
      → moves_on (project_all_pay_win write_ok o t).0 ≡ true
  unfolding moves_on write project_all_pay_win
  win_moves o t (d, n, read, winner, parsed) = ground (arith, read, winner, parsed)

  settle_moves :
      (o : Option SoldPayload) (t : Tables) → IsSale o → moves_on (settle no_faults o t).0 ≡ true
  unfolding moves_on settle update_auction_status write
  settle_moves o t sale = ground (arith, create_moves o t sale, win_moves o t sale)

  sold_moves :
      (o : Option SoldPayload) (t : Tables)
      → IsSale o
      → moves_on (project_sold no_faults o t).0 ≡ true
  unfolding project_sold moves_on
  sold_moves o t sale = elim (Option-cases t.auction) [
    | inl absent ↦ rw (absent, project_sold) refl
    | inr (a, present) ↦
        let t1 = (finalize write_ok o t).1 in
        let t2 = (mark_sold write_ok a.status t1).1 in
        let sold =
          then_do_ok (mark_sold write_ok a.status t1) (settle no_faults o)
            (mark_sold_ok a.status t1) in
        let finalized =
          then_do_ok (finalize write_ok o t)
            (λ u. then_do (mark_sold write_ok a.status u) (settle no_faults o)) (finalize_ok o t) in
        simp (project_sold, present, finalized, sold) (settle_moves o t2 sale)
  ]

  forfeit_moves :
      (d : Option ForfeitPayload) (t : Tables)
      → IsForfeit d
      → is_nil (project_all_pay_forfeit write_ok d t).0 ≡ true
  unfolding project_all_pay_forfeit write is_nil
  forfeit_moves o t (d, n, read, user, parsed) = ground (arith, read, user, parsed)

  pub settle_event-moves :
      (e : StreamEvent) (ty : EventType) (payload : ℕ) (t : Tables)
      → IsReadable ty payload
      → (settle_event mac evidence_key version key decode_sold decode_forfeit
          (calm e)
          ty
          payload
          t).0
        ≡ true
  unfolding settle_event terminal_status update_auction_status write is_nil
  settle_event-moves e type_auction_sold payload t r = sold_moves (decode_sold payload) t r
  settle_event-moves e type_all_pay_forfeit payload t r =
      ground (arith, forfeit_moves (decode_forfeit payload) t r)
  settle_event-moves e _ payload t r = ground arith
