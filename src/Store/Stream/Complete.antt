-- ===== src/Store/Stream/Complete.antt =====
-- Paging reaches the end of the Stream.
use mathlib.Core.Path.{subst}
use live_auction_system.Prelude.{
  ℕ, zero, suc, ◌-◌, ◌<◌, ◌≡◌, ◌≢◌, ◌⊎◌, inl, inr, ◌∙◌, ap, sym, refl, if◌then◌else◌, ltb, ◌==◌,
  ◌||◌, List, [], ◌∷◌, ◌++◌, Option, some, arith, length, take, append-nil, append_assoc,
  Bool-cases, true, false,
}
use live_auction_system.Store.Stream.{
  StreamEvent, Fetch, Collected, collected, collect_loop, emit_chunk, last_id, stream_id_seq,
  collect_stream_events,
}
use live_auction_system.Store.Stream.Emit.{Ordered, after, after_below, last_seq_or, emit_chunk_lem}
use live_auction_system.Store.Stream.Pages.{
  from, drop, SeqIds, from_cases, after-Ordered, after-SeqIds, take-Ordered, take-SeqIds,
  after-after, after-take, last_seq_or-above, take-drop, take_all, length-drop, last_id_seq,
}

-- A Stream as the scripts write it: rising from above 0, with the seq as the id.
abbrev pub IsStream : List StreamEvent → Type 0
IsStream s = Ordered 0 s × SeqIds s

-- XRANGE on a Stream, as Redis documents it.
abbrev pub IsRange : Fetch → List StreamEvent → Type 0
IsRange fetch s =
    (cursor : Option ℕ) (count : ℕ)
    → fetch cursor count ≡ some (take count (from (stream_id_seq cursor) s))

-- What a page at the cursor `n` holds of the events `t` after it: a first part, and all if it is short.
record Page (n : ℕ) (count : ℕ) (t page : List StreamEvent) : Type 0 where
  size : ℕ
  emits : after n page ≡ take (suc size) t
  drained : length page < count → take (suc size) t ≡ t
  bound : ℕ
  rises : Ordered bound page
  ids : SeqIds page
  ends : last_seq_or n page ≡ last_seq_or n (take (suc size) t)

Page-after :
    (n c : ℕ) (t : List StreamEvent)
    → Ordered n t
    → SeqIds t
    → Page n (suc (suc c)) t (take (suc (suc c)) t)
Page-after n c t o i = record {
  size = suc c;
  emits = after_below n n (take (suc (suc c)) t) (take-Ordered (suc (suc c)) n t o) (omega arith);
  drained = take_all (suc (suc c)) t;
  bound = n;
  rises = take-Ordered (suc (suc c)) n t o;
  ids = take-SeqIds (suc (suc c)) t i;
  ends = refl;
}

-- With the event at the cursor first.
Page-again :
    (n c : ℕ) (m : StreamEvent) (t : List StreamEvent)
    → 0 < m.seq
    → m.seq ≡ n
    → m.id ≡ n
    → Ordered n t
    → SeqIds t
    → Page n (suc (suc c)) t (m ∷ take (suc c) t)
Page-again n c m t positive s d o i = record {
  size = c;
  emits = ground (arith, s, after_below n n (take (suc c) t) (take-Ordered (suc c) n t o));
  drained = λ short. take_all (suc c) t (omega (arith, short));
  bound = 0;
  rises = (positive, subst (λ k. Ordered k (take (suc c) t)) (sym s) (take-Ordered (suc c) n t o));
  ids = (d ∙ sym s, take-SeqIds (suc c) t i);
  ends = ap (λ k. last_seq_or k (take (suc c) t)) s;
}

Page-of :
    (n c : ℕ) (s : List StreamEvent)
    → IsStream s
    → Page n (suc (suc c)) (after n s) (take (suc (suc c)) (from n s))
Page-of n c s (o, i) = elim (from_cases n 0 s o i) [
  | inl same ↦
      subst (λ f. Page n (suc (suc c)) (after n s) (take (suc (suc c)) f)) (sym same)
        (Page-after n c (after n s) (after-Ordered n 0 s o) (after-SeqIds n s i))
  | inr (m, b, q, d, same) ↦
      subst (λ f. Page n (suc (suc c)) (after n s) (take (suc (suc c)) f)) (sym same)
        (Page-again n c m (after n s) b q d (after-Ordered n 0 s o) (after-SeqIds n s i))
]

stop_cases : (a b k : ℕ) → (ltb a b || (k == 0)) ≡ true → (a < b) ⊎ (k ≡ 0)
stop_cases a b k h = ground (arith, h)

go_cases : (a b k : ℕ) → (ltb a b || (k == 0)) ≡ false → k ≢ 0
go_cases a b k h = ground (arith, h)

take_none : (k : ℕ) (t : List StreamEvent) → length (take (suc k) t) ≡ 0 → take (suc k) t ≡ t
take_none k [] h = refl
take_none k (m ∷ t) h = absurd (omega (arith, h))

module _ (fetch : Fetch) (c : ℕ) (given : Option ℕ) (s : List StreamEvent) (stream : IsStream s)
    (range : IsRange fetch s) where
  abbrev loop : ℕ → ℕ → Option ℕ → Option ℕ → List StreamEvent → Collected
  loop fuel n new_last cursor out =
      collect_loop fetch (suc (suc c)) given fuel n new_last cursor out

  -- The loop has collected every event after `n`.
  abbrev Completes : Collected → List StreamEvent → ℕ → Type 0
  Completes result out n = (last : Option ℕ) × (result ≡ collected (out ++ after n s) last)

  abbrev e :
      ℕ
      → Option ℕ
      → StreamEvent
      → List StreamEvent
      → record { out : List StreamEvent; new_last : Option ℕ; last_seq : ℕ }
  e n new_last m ms = emit_chunk n new_last (m ∷ ms)

  module _ (fuel : ℕ) (n : ℕ) (new_last cursor : Option ℕ) (out : List StreamEvent) where
    loop_empty :
        fetch cursor (suc (suc c)) ≡ some []
        → loop (suc fuel) n new_last cursor out ≡ collected out new_last
    unfolding collect_loop
    loop_empty fetched = rw (fetched, collect_loop) refl

    module _ (m : StreamEvent) (ms : List StreamEvent)
        (fetched : fetch cursor (suc (suc c)) ≡ some (m ∷ ms)) where
      loop_page : loop (suc fuel) n new_last cursor out ≡ (
          if ltb (length (m ∷ ms)) (suc (suc c)) || (length (e n new_last m ms).out == 0)
          then collected (out ++ (e n new_last m ms).out) (e n new_last m ms).new_last
          else loop fuel
              (e n new_last m ms).last_seq
              (e n new_last m ms).new_last
              (last_id (m ∷ ms))
              (out ++ (e n new_last m ms).out))
      unfolding collect_loop
      loop_page = rw (fetched, collect_loop) refl

  -- Every loop on this fuel completes.
  abbrev Enough : ℕ → Type 0
  Enough fuel =
      (n : ℕ) (new_last cursor : Option ℕ) (out : List StreamEvent)
      → stream_id_seq cursor ≡ n
      → length (after n s) < fuel
      → Completes (loop fuel n new_last cursor out) out n

  module _ (n : ℕ) (new_last : Option ℕ) (out : List StreamEvent) (m : StreamEvent)
      (ms : List StreamEvent) (p : Page n (suc (suc c)) (after n s) (m ∷ ms)) where
    emitted : (e n new_last m ms).out ≡ take (suc p.size) (after n s)
    emitted = (emit_chunk_lem n p.bound new_last (m ∷ ms) p.rises).0 ∙ p.emits

    ended : (e n new_last m ms).last_seq ≡ last_seq_or n (take (suc p.size) (after n s))
    ended = (emit_chunk_lem n p.bound new_last (m ∷ ms) p.rises).1 ∙ ap (last_seq_or n) p.emits

    -- The page is the last one.
    page_ends :
        (ltb (length (m ∷ ms)) (suc (suc c)) || (length (e n new_last m ms).out == 0)) ≡ true
        → (e n new_last m ms).out ≡ after n s
    page_ends stop =
        elim (stop_cases (length (m ∷ ms)) (suc (suc c)) (length (e n new_last m ms).out) stop) [
          | inl short ↦ emitted ∙ p.drained short
          | inr empty ↦ emitted ∙ take_none p.size (after n s) (ap length (sym emitted) ∙ empty)
        ]

    -- What is left after the page.
    left : after (e n new_last m ms).last_seq s ≡ drop (suc p.size) (after n s)
    left =
        let ordered = after-Ordered n 0 s stream.0 in
        let part = take (suc p.size) (after n s) in
        ap (λ k. after k s) ended
        ∙ sym (
            after-after n (last_seq_or n part) s
              (last_seq_or-above n n part (take-Ordered (suc p.size) n (after n s) ordered)))
        ∙ after-take (suc p.size) n (after n s) ordered

    -- The page and what is left are all there is.
    rest_of :
        (out ++ (e n new_last m ms).out) ++ after (e n new_last m ms).last_seq s ≡ out ++ after n s
    rest_of =
        append_assoc out (e n new_last m ms).out (after (e n new_last m ms).last_seq s)
        ∙ ap (λ l. out ++ l)
            (ap (λ l. l ++ after (e n new_last m ms).last_seq s) emitted
              ∙ ap (λ l. take (suc p.size) (after n s) ++ l) left
              ∙ take-drop (suc p.size) (after n s))

    fewer :
        (ltb (length (m ∷ ms)) (suc (suc c)) || (length (e n new_last m ms).out == 0)) ≡ false
        → length (after (e n new_last m ms).last_seq s) < length (after n s)
    fewer go =
        let some_out =
          go_cases (length (m ∷ ms)) (suc (suc c)) (length (e n new_last m ms).out) go in
        omega (
          arith,
          ap length left,
          length-drop p.size (after n s) (λ none_out. some_out (ap length (emitted ∙ none_out))),
        )

    moved : stream_id_seq (last_id (m ∷ ms)) ≡ (e n new_last m ms).last_seq
    moved = last_id_seq n m ms p.ids ∙ p.ends ∙ sym ended

  Page-Completes :
      (fuel n : ℕ) (new_last cursor : Option ℕ) (out page : List StreamEvent)
      → Enough fuel
      → fetch cursor (suc (suc c)) ≡ some page
      → Page n (suc (suc c)) (after n s) page
      → length (after n s) < suc fuel
      → Completes (loop (suc fuel) n new_last cursor out) out n
  Page-Completes fuel n new_last cursor out [] ih fetched p enough = (
    new_last,
    loop_empty fuel n new_last cursor out fetched
        ∙ ap (λ l. collected l new_last) (sym (append-nil out))
        ∙ ap (λ t. collected (out ++ t) new_last) (p.emits ∙ p.drained (omega arith)),
  )
  Page-Completes fuel n new_last cursor out (m ∷ ms) ih fetched p enough =
      elim (Bool-cases
        (ltb (length (m ∷ ms)) (suc (suc c)) || (length (e n new_last m ms).out == 0))) [
          | inl stop ↦ (
            (e n new_last m ms).new_last,
            loop_page fuel n new_last cursor out m ms fetched
                ∙ rw (stop, page_ends n new_last out m ms p stop) refl,
          )
          | inr go ↦
              let (last, done) =
                ih (e n new_last m ms).last_seq (e n new_last m ms).new_last (last_id (m ∷ ms))
                  (out ++ (e n new_last m ms).out) (moved n new_last out m ms p)
                  (omega (arith, enough, fewer n new_last out m ms p go)) in
              (
                last,
                loop_page fuel n new_last cursor out m ms fetched
                    ∙ rw go (done ∙ ap (λ l. collected l last) (rest_of n new_last out m ms p)),
              )
        ]

  loop_completes : (fuel : ℕ) → Enough fuel
  loop_completes zero n new_last cursor out at enough = absurd (omega (arith, enough))
  loop_completes (suc fuel) n new_last cursor out at enough =
      Page-Completes fuel n new_last cursor out (take (suc (suc c)) (from n s))
        (loop_completes fuel)
        (range cursor (suc (suc c)) ∙ ap (λ k. some (take (suc (suc c)) (from k s))) at)
        (Page-of n c s stream) enough

clamped : (chunk : ℕ) → (if ltb chunk 2 then 2 else chunk) ≡ suc (suc (chunk - 2))
clamped chunk = ground arith

-- Let XRANGE read a Stream with rising seqs as ids, as Redis documents it. Then whatever the chunk
-- size, `collectStreamEvents` stops after at most one fetch more than there are events after the given
-- id, and returns exactly these events, in order.
pub collect_stream_events_complete :
    (fetch : Fetch) (chunk fuel : ℕ) (given : Option ℕ) (s : List StreamEvent)
    → IsStream s
    → IsRange fetch s
    → length (after (stream_id_seq given) s) < fuel
    → (last : Option ℕ) × (collect_stream_events fetch chunk fuel given
        ≡ collected (after (stream_id_seq given) s) last)
unfolding collect_stream_events
collect_stream_events_complete fetch chunk fuel given s stream range enough =
    let (last, done) =
      loop_completes fetch (chunk - 2) given s stream range fuel (stream_id_seq given) given given
        [] refl enough in
    (
      last,
      ap (λ k. collect_loop fetch k given fuel (stream_id_seq given) given given []) (clamped chunk)
          ∙ done,
    )
