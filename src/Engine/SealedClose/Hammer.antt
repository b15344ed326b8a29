-- ===== src/Engine/SealedClose/Hammer.antt =====
-- The hammer of the sealed modes.
use live_auction_system.Prelude.{ℕ, ◌+◌, ◌≤◌, ◌≡◌, ◌∙◌, refl, true, [], ◌∷◌, none, arith}
use live_auction_system.Prelude.Assoc.{Assoc}
use live_auction_system.Model.Status.{sold, is_live}
use live_auction_system.Model.Events.{Event, auction_sold, event_seq}
use live_auction_system.Engine.Room.{Room, last_stream_seq, xadd, next_seq}
use live_auction_system.Engine.Lifecycle.{CloseReply, closed_sold}
use live_auction_system.Engine.SealedClose.{
  PriceMode, close_refusal, hammer_sealed, hammer_all_pay, forfeit, emit, sell, revealed,
  revealed_event, forfeit_event, sold_data, final_price, sealed_keys_ok, hammered,
}

-- A live room at or after its end, with right key types and its Stream in step.
pub record IsDue (now : ℕ) (r : Room) : Type 0 where
  pub types : sealed_keys_ok r ≡ true
  pub running : is_live r.state.status ≡ true
  pub ended : r.state.end_at_ms ≤ now
  pub in_step : last_stream_seq r.stream ≡ r.state.seq

pub IsDue-unrefused : (now : ℕ) (r : Room) → IsDue now r → close_refusal now r ≡ none
unfolding close_refusal
IsDue-unrefused now r due = ground (arith, due.types, due.running, due.ended, due.in_step)

emit_ok :
    (event : ℕ → Event) (next : ℕ → Room → CloseReply × Room) (r : Room)
    → last_stream_seq r.stream ≡ r.state.seq
    → event_seq (event (r.state.seq + 1)) ≡ r.state.seq + 1
    → emit event next r
      ≡ next (r.state.seq + 1) (record (next_seq r) {
        stream = record { id = r.state.seq + 1; event = event (r.state.seq + 1) } ∷ r.stream;
        published = event (r.state.seq + 1) ∷ r.published;
      })
unfolding emit xadd
emit_ok event next r h k = rw (k, emit) (ground (arith, h))

-- What the hammer leaves: the sale in the reply and the state, and the Stream in step.
pub record IsSold (winner : ℕ) (price : ℕ) (now : ℕ) (seq : ℕ) (out : CloseReply × Room)
    : Type 0 where
  pub reply : out.0 ≡ closed_sold seq (sold_data winner price now seq)
  pub status_is : out.1.state.status ≡ sold
  pub winner_is : out.1.state.winner_id ≡ winner
  pub price_is : out.1.state.current_price_cents ≡ price
  pub seq_is : out.1.state.seq ≡ seq
  pub in_step : last_stream_seq out.1.stream ≡ seq
  pub private_gone : out.1.sealed_bids ≡ []

pub sell_ok :
    (winner price now : ℕ) (r : Room)
    → last_stream_seq r.stream ≡ r.state.seq
    → sell winner price now r ≡ (
      closed_sold (r.state.seq + 1) (sold_data winner price now (r.state.seq + 1)),
      record (next_seq r) {
        stream =
            record {
              id = r.state.seq + 1;
              event = auction_sold (sold_data winner price now (r.state.seq + 1));
            }
            ∷ r.stream;
        published = auction_sold (sold_data winner price now (r.state.seq + 1)) ∷ r.published;
        sealed_bids = [];
        sealed_names = [];
      },
    )
unfolding sell event_seq
sell_ok winner price now r h =
    emit_ok (λ seq. auction_sold (sold_data winner price now seq))
      (λ seq t. (
        closed_sold seq (sold_data winner price now seq),
        record t { sealed_bids = []; sealed_names = [] },
      ))
      r h refl

abbrev after : Event → Room → Room
after e r = record (next_seq r) {
  stream = record { id = r.state.seq + 1; event = e } ∷ r.stream;
  published = e ∷ r.published;
}

sell-IsSold :
    (winner price now : ℕ) (r : Room)
    → last_stream_seq r.stream ≡ r.state.seq
    → r.state.status ≡ sold
    → r.state.winner_id ≡ winner
    → r.state.current_price_cents ≡ price
    → IsSold winner price now (r.state.seq + 1) (sell winner price now r)
sell-IsSold winner price now r h s w p = rw (sell_ok winner price now r h) (record {
  reply = refl;
  status_is = s;
  winner_is = w;
  price_is = p;
  seq_is = refl;
  in_step = refl;
  private_gone = refl;
})

pub hammer_sealed-IsSold :
    (mode : PriceMode) (now winner top : ℕ) (rest : Assoc ℕ) (r : Room)
    → last_stream_seq r.stream ≡ r.state.seq
    → IsSold winner
        (final_price mode r.state.start_price_cents top rest)
        now
        (r.state.seq + 1 + 1)
        (hammer_sealed mode now winner top rest r)
unfolding hammer_sealed event_seq
hammer_sealed-IsSold mode now winner top rest r h =
    let ranking = (winner, top) ∷ rest in
    let price = final_price mode r.state.start_price_cents top rest in
    let e = revealed_event winner price (revealed r.sealed_names ranking) now in
    let r0 = hammered winner price ranking r in
    rw (emit_ok e (λ _ t. sell winner price now t) r0 h refl)
      (sell-IsSold winner price now (after (e (r.state.seq + 1)) r0) refl refl refl refl)

-- The seq of an ALL_PAY sale: one event more where there is a runner-up.
abbrev pub all_pay_seq : ℕ → Assoc ℕ → ℕ
all_pay_seq seq [] = seq + 1 + 1
all_pay_seq seq (_ ∷ _) = seq + 1 + 1 + 1

-- With a runner-up, the hammer of an ALL_PAY room is the sale after two more events.
module _ (now winner top second amount : ℕ) (rest : Assoc ℕ) (r : Room) where
  abbrev pub runner_up_room : Room
  runner_up_room =
      let ranking = (winner, top) ∷ (second, amount) ∷ rest in
      let e = revealed_event winner top (revealed r.sealed_names ranking) now in
      after (forfeit_event second amount now (r.state.seq + 1 + 1))
        (after (e (r.state.seq + 1)) (hammered winner top ranking r))

  pub hammer_all_pay_second :
      last_stream_seq r.stream ≡ r.state.seq
      → hammer_all_pay now winner top ((second, amount) ∷ rest) r
        ≡ sell winner top now runner_up_room
  unfolding hammer_all_pay forfeit event_seq
  hammer_all_pay_second h =
      let ranking = (winner, top) ∷ (second, amount) ∷ rest in
      let e = revealed_event winner top (revealed r.sealed_names ranking) now in
      let r0 = hammered winner top ranking r in
      emit_ok e (λ _ t. forfeit now ((second, amount) ∷ rest) (sell winner top now) t) r0 h refl
      ∙ emit_ok (forfeit_event second amount now) (λ _ t. sell winner top now t)
          (after (e (r.state.seq + 1)) r0) refl refl

-- Without one, it is the sale after one more event.
module _ (now winner top : ℕ) (r : Room) where
  abbrev pub alone_room : Room
  alone_room =
      let ranking = (winner, top) ∷ [] in
      after (revealed_event winner top (revealed r.sealed_names ranking) now (r.state.seq + 1))
        (hammered winner top ranking r)

  pub hammer_all_pay_alone :
      last_stream_seq r.stream ≡ r.state.seq
      → hammer_all_pay now winner top [] r ≡ sell winner top now alone_room
  unfolding hammer_all_pay forfeit event_seq
  hammer_all_pay_alone h =
      let ranking = (winner, top) ∷ [] in
      emit_ok (revealed_event winner top (revealed r.sealed_names ranking) now)
        (λ _ t. forfeit now [] (sell winner top now) t) (hammered winner top ranking r) h refl

pub hammer_all_pay-IsSold :
    (now winner top : ℕ) (rest : Assoc ℕ) (r : Room)
    → last_stream_seq r.stream ≡ r.state.seq
    → IsSold winner top now (all_pay_seq r.state.seq rest) (hammer_all_pay now winner top rest r)
unfolding hammer_all_pay forfeit event_seq
hammer_all_pay-IsSold now winner top [] r h =
    rw (hammer_all_pay_alone now winner top r h)
      (sell-IsSold winner top now (alone_room now winner top r) refl refl refl refl)
hammer_all_pay-IsSold now winner top ((second, amount) ∷ rest) r h =
    rw (hammer_all_pay_second now winner top second amount rest r h) (
      sell-IsSold winner top now (runner_up_room now winner top second amount rest r) refl refl refl
        refl)
