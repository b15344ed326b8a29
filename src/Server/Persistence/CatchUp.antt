-- ===== src/Server/Persistence/CatchUp.antt =====
-- A pass of the persistence worker that meets no fault.
use live_auction_system.Prelude.{
  ℕ, suc, ◌+◌, ◌≡◌, ◌≢◌, ◌∙◌, sym, refl, ap, true, Option, some, List, [], ◌∷◌, ◌++◌, length, arith,
  All, length-append, append-nil, append_assoc,
}
use live_auction_system.Store.Stream.{StreamEvent, Fetch, read_events_after, collected}
use live_auction_system.Store.Evidence.{EventRow, MacInput, verify_full, chain_ok}
use live_auction_system.Store.Evidence.Chain.{Chained, head_of, verify_full_iff}
use live_auction_system.Store.Evidence.Project.{
  insert_next, linked, Chained-snoc, Dense-of_Chained, events_of, length_next, events_of-append,
}
use live_auction_system.Store.Orders.{write_ok, SoldPayload, ForfeitPayload}
use live_auction_system.Server.Persistence.Pass.{
  EventFaults, Worker, type_name, settle_event, insert_row_of, insert_result, project_pass,
  with_faults, project_auction,
}
use live_auction_system.Server.Persistence.Moves.{calm, IsReadable, settle_event-moves}

-- The types, names and payloads of events, as the table stores them.
abbrev pub stored : List StreamEvent → List (ℕ × ℕ)
stored [] = []
stored (e ∷ es) = (type_name e.event_type, e.payload) ∷ stored es

abbrev pub last_id_or : Option ℕ → List StreamEvent → Option ℕ
last_id_or id [] = id
last_id_or id (e ∷ es) = last_id_or (some e.id) es

abbrev pub Numbered : ℕ → List StreamEvent → Type 0
Numbered n [] = Unit {0}
Numbered n (e ∷ es) = (e.seq ≡ n) × Numbered (suc n) es

length-events_of : (rows : List EventRow) → length (events_of rows) ≡ length rows
length-events_of [] = refl
length-events_of (r ∷ rows) = ap suc (length-events_of rows)

length-stored : (es : List StreamEvent) → length (stored es) ≡ length es
length-stored [] = refl
length-stored (e ∷ es) = ap suc (length-stored es)

module _ (mac : MacInput → ℕ) (evidence_key : ℕ → Option ℕ) (version : ℕ) (key : ℕ)
    (decode_sold : ℕ → Option SoldPayload) (decode_forfeit : ℕ → Option ForfeitPayload) where
  module _ (full : (x : MacInput) → mac x ≢ 0) (known : evidence_key version ≡ some key) where
    insert_row_of-next :
        (e : StreamEvent) (rows : List EventRow)
        → Chained mac evidence_key 1 0 rows
        → e.seq ≡ suc (length rows)
        → insert_row_of mac evidence_key version key decode_sold decode_forfeit write_ok e rows ≡ (
          true,
          rows
              ++ (linked mac evidence_key key version
                    (suc (length rows))
                    (type_name e.event_type)
                    e.payload
                    (head_of mac evidence_key 0 rows)
                  ∷ []),
        )
    unfolding insert_row_of insert_result
    insert_row_of-next e rows c s =
        rw
          (
            s,
            insert_next mac evidence_key key version (type_name e.event_type) e.payload rows
                (Dense-of_Chained mac evidence_key full 1 0 rows c),
            insert_row_of,
          )
          refl

    abbrev next : StreamEvent → Worker → Worker
    next e w = record {
      tables =
          (settle_event mac evidence_key version key decode_sold decode_forfeit (calm e)
            e.event_type e.payload w.tables).1;
      rows =
          w.rows
          ++ (linked mac evidence_key key version (suc (length w.rows)) (type_name e.event_type)
                e.payload (head_of mac evidence_key 0 w.rows)
              ∷ []);
      last_id = some e.id;
    }

    pass_step :
        (e : StreamEvent) (es : List (EventFaults × StreamEvent)) (w : Worker)
        → Chained mac evidence_key 1 0 w.rows
        → e.seq ≡ suc (length w.rows)
        → IsReadable mac evidence_key version key decode_sold decode_forfeit e.event_type e.payload
        → project_pass mac evidence_key version key decode_sold decode_forfeit ((calm e, e) ∷ es) w
          ≡ project_pass mac evidence_key version key decode_sold decode_forfeit es (next e w)
    unfolding project_pass
    pass_step e es w c s r =
        rw
          (
            insert_row_of-next e w.rows c s,
            settle_event-moves mac evidence_key version key decode_sold decode_forfeit e
                e.event_type e.payload w.tables r,
            project_pass,
          )
          refl

    pass_catches_up :
        (es : List StreamEvent) (w : Worker)
        → Chained mac evidence_key 1 0 w.rows
        → Numbered (suc (length w.rows)) es
        → All
            (λ e.
              IsReadable mac evidence_key version key decode_sold decode_forfeit e.event_type
                e.payload)
            es
        → let w' =
            project_pass mac evidence_key version key decode_sold decode_forfeit
              (with_faults mac evidence_key version key decode_sold decode_forfeit calm es)
              w in
          (w'.last_id ≡ last_id_or w.last_id es)
          × (events_of w'.rows ≡ events_of w.rows ++ stored es)
          × Chained mac evidence_key 1 0 w'.rows
    unfolding project_pass
    pass_catches_up [] w c n r = (refl, sym (append-nil (events_of w.rows)), c)
    pass_catches_up (e ∷ es) w c n r =
        let row =
          linked mac evidence_key key version (suc (length w.rows)) (type_name e.event_type)
            e.payload (head_of mac evidence_key 0 w.rows) in
        let c' =
          Chained-snoc mac evidence_key 1 0 w.rows row c (ground arith) refl (key, known, refl) in
        let n' : Numbered (suc (length (w.rows ++ (row ∷ [])))) es =
          rw⁻¹ (length_next w.rows row) n.1 in
        let ih = pass_catches_up es (next e w) c' n' r.1 in
        rw
          (pass_step e (with_faults mac evidence_key version key decode_sold decode_forfeit calm es)
            w c n.0 r.0)
          (
            ih.0,
            ih.1
                ∙ ap (λ l. l ++ stored es) (events_of-append w.rows (row ∷ []))
                ∙ append_assoc (events_of w.rows) ((row.event_type, row.payload) ∷ []) (stored es),
            ih.2,
          )

    -- Let no MAC be the empty string and the key source know the store's key, and let the full
    -- verification accept a table up to n. If the read after the cursor gives events that number on from
    -- n + 1, and whose sales and forfeits name a user and an amount, then a run of `project` that meets
    -- no fault moves the cursor to the last of them, leaves the table with these events after those it
    -- held, and the full verification accepts it up to the last of them.
    pub project_catches_up :
        (fetch : Fetch) (fuel : ℕ) (es : List StreamEvent) (last : Option ℕ) (w : Worker) (n h : ℕ)
        → verify_full mac evidence_key w.rows ≡ chain_ok n h
        → read_events_after fetch fuel w.last_id ≡ collected es last
        → Numbered (suc n) es
        → All
            (λ e.
              IsReadable mac evidence_key version key decode_sold decode_forfeit e.event_type
                e.payload)
            es
        → let w' =
            project_auction mac evidence_key version key decode_sold decode_forfeit fetch fuel calm
              w in
          (w'.last_id ≡ last_id_or w.last_id es)
          × (events_of w'.rows ≡ events_of w.rows ++ stored es)
          × ((h' : ℕ) × (verify_full mac evidence_key w'.rows ≡ chain_ok (n + length es) h'))
    unfolding project_auction
    project_catches_up fetch fuel es last w n h v r num readable =
        let (chained, counted, head) = (verify_full_iff mac evidence_key w.rows n h).0 v in
        let num' : Numbered (suc (length w.rows)) es = rw⁻¹ counted num in
        let (moved, holds, chained') = pass_catches_up es w chained num' readable in
        let w' =
          project_pass mac evidence_key version key decode_sold decode_forfeit
            (with_faults mac evidence_key version key decode_sold decode_forfeit calm es) w in
        rw (r, project_auction)
          (
            moved,
            holds,
            (
              head_of mac evidence_key 0 w'.rows,
              (verify_full_iff mac evidence_key w'.rows (n + length es)
                    (head_of mac evidence_key 0 w'.rows)).1
                  (
                    chained',
                    ground (
                      arith,
                      counted,
                      ap length holds,
                      length-append (events_of w.rows) (stored es),
                      length-events_of w.rows,
                      length-events_of w'.rows,
                      length-stored es,
                    ),
                    refl,
                  ),
            ),
          )
