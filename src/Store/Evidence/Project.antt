-- ===== src/Store/Evidence/Project.antt =====
-- Projecting a Stream in order builds a chain that verifies.
use live_auction_system.Prelude.{
  ℕ, suc, ◌+◌, ◌≤◌, ◌≡◌, ◌≢◌, refl, sym, ap, ◌∙◌, true, Option, none, some, arith, List, [], ◌∷◌,
  ◌++◌, length, length-append, append-nil, append_assoc,
}
use live_auction_system.Store.Evidence.{
  EventRow, InsertResult, insert_ok, chain_ok, MacInput, string_of, verify_full,
  evidence_hash_with_key, insert_event, project, fill_event_hash, chain_row, link_of, find_row,
  prior_row, insert_row, set_hash, is_chained, or_row,
}
use live_auction_system.Store.Evidence.Chain.{Chained, head_of, IsHashed, verify_full_iff}

-- Rows numbered from `expected` on, all of them chained.
abbrev pub Dense : ℕ → List EventRow → Type 0
Dense expected [] = Unit {0}
Dense expected (row ∷ rows) =
    (row.seq ≡ expected) × (is_chained row ≡ true) × Dense (suc expected) rows

abbrev last_row : List EventRow → Option EventRow
last_row [] = none
last_row (row ∷ rows) = some (or_row (last_row rows) row)

-- A row as INSERT leaves it.
abbrev new_row : ℕ → ℕ → ℕ → EventRow
new_row seq event_type payload = record {
  seq = seq;
  event_type = event_type;
  payload = payload;
  event_hash = none;
  prev_hash = none;
  hmac_key_version = 1;
}

module _ (new : EventRow) where
  insert_row-end :
      (e : ℕ) (rows : List EventRow)
      → Dense e rows
      → e + length rows ≤ new.seq
      → insert_row new rows ≡ rows ++ (new ∷ [])
  unfolding insert_row
  insert_row-end e [] d s = refl
  insert_row-end e (row ∷ rows) d s = ground (arith, insert_row-end (suc e) rows d.2)

  find_row-absent :
      (e seq : ℕ) (rows : List EventRow)
      → Dense e rows
      → e + length rows ≤ seq
      → find_row seq rows ≡ none
  unfolding find_row
  find_row-absent e seq [] d s = refl
  find_row-absent e seq (row ∷ rows) d s = ground (arith, find_row-absent (suc e) seq rows d.2)

  find_row-end :
      (e : ℕ) (rows : List EventRow)
      → Dense e rows
      → e + length rows ≤ new.seq
      → find_row new.seq (rows ++ (new ∷ [])) ≡ some new
  unfolding find_row
  find_row-end e [] d s = ground arith
  find_row-end e (row ∷ rows) d s = ground (arith, find_row-end (suc e) rows d.2)

  prior_row-end :
      (e : ℕ) (rows : List EventRow)
      → Dense e rows
      → e + length rows ≤ new.seq
      → prior_row new.seq (rows ++ (new ∷ [])) ≡ last_row rows
  unfolding prior_row
  prior_row-end e [] d s = ground arith
  prior_row-end e (row ∷ rows) d s = ground (arith, prior_row-end (suc e) rows d.2)

  set_hash-end :
      (h p v e : ℕ) (rows : List EventRow)
      → Dense e rows
      → e + length rows ≤ new.seq
      → new.event_hash ≡ none
      → set_hash new.seq h p v (rows ++ (new ∷ []))
        ≡ rows
          ++ (record new { event_hash = some h; prev_hash = some p; hmac_key_version = v } ∷ [])
  unfolding set_hash
  set_hash-end h p v e [] d s n = ground arith
  set_hash-end h p v e (row ∷ rows) d s n = ground (arith, set_hash-end h p v (suc e) rows d.2)

-- The events of a table, as they were projected.
abbrev pub events_of : List EventRow → List (ℕ × ℕ)
events_of [] = []
events_of (row ∷ rows) = (row.event_type, row.payload) ∷ events_of rows

pub events_of-append : (rs qs : List EventRow) → events_of (rs ++ qs) ≡ events_of rs ++ events_of qs
events_of-append [] qs = refl
events_of-append (r ∷ rs) qs = ap (λ l. (r.event_type, r.payload) ∷ l) (events_of-append rs qs)

pub length_next :
    (rows : List EventRow) (row : EventRow)
    → suc (suc (length rows)) ≡ suc (length (rows ++ (row ∷ [])))
length_next rows row = ground (arith, length-append rows (row ∷ []))

module _ (mac : MacInput → ℕ) (evidence_key : ℕ → Option ℕ) where
  pub Dense-of_Chained :
      ((x : MacInput) → mac x ≢ 0)
      → (e p : ℕ) (rows : List EventRow) → Chained mac evidence_key e p rows
      → Dense e rows
  Dense-of_Chained full e p [] c = tt
  Dense-of_Chained full e p (row ∷ rows) c =
      let (key, _, h) = c.2 in
      (
        c.0,
        ground (
          arith,
          h,
          full (record {
            key = key;
            prev = p;
            seq = row.seq;
            event_type = row.event_type;
            payload = row.payload;
          }),
        ),
        Dense-of_Chained full (suc e) (string_of row.event_hash) rows c.3,
      )

  link_after :
      (e p : ℕ) (row : EventRow) (rows : List EventRow)
      → Dense e (row ∷ rows)
      → link_of mac evidence_key (e + length (row ∷ rows)) (last_row (row ∷ rows))
        ≡ some (head_of mac evidence_key p (row ∷ rows))
  unfolding link_of
  link_after e p row [] d = ground (arith, d.0, d.1)
  link_after e p row (next ∷ rows) d =
      ground (arith, link_after (suc e) (string_of row.event_hash) next rows d.2)

  link_first :
      (rows : List EventRow)
      → Dense 1 rows
      → link_of mac evidence_key (suc (length rows)) (last_row rows)
        ≡ some (head_of mac evidence_key 0 rows)
  unfolding link_of
  link_first [] d = ground arith
  link_first (row ∷ rows) d = ground (arith, link_after 1 0 row rows d)

  pub Chained-snoc :
      (e p : ℕ) (rows : List EventRow) (new : EventRow)
      → Chained mac evidence_key e p rows
      → new.seq ≡ e + length rows
      → string_of new.prev_hash ≡ head_of mac evidence_key p rows
      → IsHashed mac evidence_key (head_of mac evidence_key p rows) new
      → Chained mac evidence_key e p (rows ++ (new ∷ []))
  Chained-snoc e p [] new c s q h = (ground (arith, s), q, h, tt)
  Chained-snoc e p (row ∷ rows) new c s q h = (
    c.0,
    c.1,
    c.2,
    Chained-snoc (suc e) (string_of row.event_hash) rows new c.3 (ground (arith, s)) q h,
  )

  module _ (key : ℕ) (version : ℕ) where
    abbrev pub linked : ℕ → ℕ → ℕ → ℕ → EventRow
    linked seq event_type payload prev = record {
      seq = seq;
      event_type = event_type;
      payload = payload;
      event_hash = some (evidence_hash_with_key mac evidence_key key prev seq event_type payload);
      prev_hash = some prev;
      hmac_key_version = version;
    }

    chain_new :
        (t q : ℕ) (rows : List EventRow)
        → Dense 1 rows
        → chain_row mac evidence_key key version
            (new_row (suc (length rows)) t q)
            (rows ++ (new_row (suc (length rows)) t q ∷ []))
          ≡ (
            insert_ok,
            rows ++ (linked (suc (length rows)) t q (head_of mac evidence_key 0 rows) ∷ []),
          )
    unfolding chain_row
    chain_new t q rows d =
        let n = suc (length rows) in
        let new = new_row n t q in
        let prev = head_of mac evidence_key 0 rows in
        rw (
          prior_row-end new 1 rows d (ground arith),
          link_first rows d,
          set_hash-end new (evidence_hash_with_key mac evidence_key key prev n t q) prev version 1
              rows d (ground arith) refl,
          chain_row,
        )

    fill_new :
        (t q : ℕ) (rows : List EventRow)
        → Dense 1 rows
        → fill_event_hash mac evidence_key key version
            (suc (length rows))
            (rows ++ (new_row (suc (length rows)) t q ∷ []))
          ≡ (
            insert_ok,
            rows ++ (linked (suc (length rows)) t q (head_of mac evidence_key 0 rows) ∷ []),
          )
    unfolding fill_event_hash
    fill_new t q rows d =
        let new = new_row (suc (length rows)) t q in
        rw (find_row-end new 1 rows d (ground arith), fill_event_hash) (chain_new t q rows d)

    pub insert_next :
        (t q : ℕ) (rows : List EventRow)
        → Dense 1 rows
        → insert_event mac evidence_key key version (suc (length rows)) t q rows ≡ (
          insert_ok,
          rows ++ (linked (suc (length rows)) t q (head_of mac evidence_key 0 rows) ∷ []),
        )
    unfolding insert_event
    insert_next t q rows d =
        let n = suc (length rows) in
        rw
          (
            find_row-absent (new_row n t q) 1 n rows d (ground arith),
            insert_row-end (new_row n t q) 1 rows d (ground arith),
            insert_event,
          )
          (fill_new t q rows d)

    -- What a projection from a chained table reaches.
    record IsProjected (rows : List EventRow) (events : List (ℕ × ℕ))
        (out : InsertResult × List EventRow) : Type 0 where
      succeeds : out.0 ≡ insert_ok
      stores : events_of out.1 ≡ events_of rows ++ events
      counts : length out.1 ≡ length rows + length events
      chains : Chained mac evidence_key 1 0 out.1

    project_step :
        (seq t q : ℕ) (events : List (ℕ × ℕ)) (rows after : List EventRow)
        → insert_event mac evidence_key key version seq t q rows ≡ (insert_ok, after)
        → project mac evidence_key key version seq ((t, q) ∷ events) rows
          ≡ project mac evidence_key key version (suc seq) events after
    unfolding project
    project_step seq t q events rows after h = rw (h, project, h)

    IsProjected-grow :
        (rows : List EventRow) (row : EventRow) (events : List (ℕ × ℕ))
        (out : InsertResult × List EventRow)
        → IsProjected (rows ++ (row ∷ [])) events out
        → IsProjected rows ((row.event_type, row.payload) ∷ events) out
    IsProjected-grow rows row events out p = record {
      succeeds = p.succeeds;
      stores =
          p.stores
          ∙ ap (λ l. l ++ events) (events_of-append rows (row ∷ []))
          ∙ append_assoc (events_of rows) ((row.event_type, row.payload) ∷ []) events;
      counts = ground (arith, p.counts, length-append rows (row ∷ []));
      chains = p.chains;
    }

    project_from :
        ((x : MacInput) → mac x ≢ 0)
        → evidence_key version ≡ some key
        → (events : List (ℕ × ℕ)) (rows : List EventRow) → Chained mac evidence_key 1 0 rows
        → IsProjected rows events
            (project mac evidence_key key version (suc (length rows)) events rows)
    unfolding project
    project_from full known [] rows c = record {
      succeeds = refl;
      stores = sym (append-nil (events_of rows));
      counts = ground arith;
      chains = c;
    }
    project_from full known ((t, q) ∷ events) rows c =
        let row = linked (suc (length rows)) t q (head_of mac evidence_key 0 rows) in
        let step = insert_next t q rows (Dense-of_Chained full 1 0 rows c) in
        let c' = Chained-snoc 1 0 rows row c (ground arith) refl (key, known, refl) in
        let ih = project_from full known events (rows ++ (row ∷ [])) c' in
        rw (project_step (suc (length rows)) t q events rows (rows ++ (row ∷ [])) step) (
          IsProjected-grow rows row events
            (project mac evidence_key key version (suc (suc (length rows))) events
              (rows ++ (row ∷ [])))
            (rw (length_next rows row) ih))

    -- Let no MAC be the empty string and the key source know the store's key. Then projecting any
    -- events, numbered from 1, into an empty table succeeds; the table holds exactly these events, in
    -- order; and the full verification accepts it up to the last of them.
    pub project-verifies :
        ((x : MacInput) → mac x ≢ 0)
        → evidence_key version ≡ some key
        → (events : List (ℕ × ℕ))
        → ((project mac evidence_key key version 1 events []).0 ≡ insert_ok)
          × (events_of (project mac evidence_key key version 1 events []).1 ≡ events)
          × (verify_full mac evidence_key (project mac evidence_key key version 1 events []).1
              ≡ chain_ok
                  (length events)
                  (head_of mac evidence_key 0 (project mac evidence_key key version 1 events []).1))
    project-verifies full known events =
        let p = project_from full known events [] tt in
        (
          p.succeeds,
          p.stores,
          (verify_full_iff mac evidence_key (project mac evidence_key key version 1 events []).1
                (length events)
                (head_of mac evidence_key 0 (project mac evidence_key key version 1 events []).1)).1
              (p.chains, ground (arith, p.counts), refl),
        )
