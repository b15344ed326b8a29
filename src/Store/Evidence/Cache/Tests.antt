-- ===== src/Store/Evidence/Cache/Tests.antt =====
-- A table of three rows, a cache of it, and the table after one more event.
use live_auction_system.Prelude.{
  ℕ, suc, ◌+◌, ◌*◌, ◌≡◌, ◌↔◌, refl, List, [], ◌∷◌, ◌++◌, Option, none, some, arith,
}
use live_auction_system.Store.Evidence.{MacInput, EventRow, verify_rows, find_row}
use live_auction_system.Store.Evidence.Cache.{
  StoredRow, EvidenceChainCache, verified, verify_evidence_chain, rows_of, evidence_chain_stats,
  store_evidence_chain_cache, finish,
}
use live_auction_system.Store.Evidence.Cache.Prefix.{Kept}
use live_auction_system.Store.Evidence.Cache.Runs.{cached_run_agrees}

abbrev toy_mac : MacInput → ℕ
toy_mac x = suc (x.key + x.prev * 3 + x.seq * 5 + x.event_type * 7 + x.payload * 11)

abbrev keys : ℕ → Option ℕ
keys _ = some 4

abbrev stored_at : ℕ → List EventRow → List StoredRow
stored_at t [] = []
stored_at t (row ∷ rows) = record { row = row; updated_at = t } ∷ stored_at t rows

abbrev row_of : ℕ → ℕ → ℕ → EventRow
row_of seq prev payload = record {
  seq = seq;
  event_type = 1;
  payload = payload;
  event_hash =
      some
        (toy_mac (record { key = 4; prev = prev; seq = seq; event_type = 1; payload = payload }));
  prev_hash = some prev;
  hmac_key_version = 1;
}

-- The hashes of the rows are 237 and 1063.
abbrev early_rows : List StoredRow
early_rows = stored_at 10 (row_of 1 0 20 ∷ row_of 2 237 30 ∷ [])

abbrev later_rows : List StoredRow
later_rows = early_rows ++ stored_at 60 (row_of 3 1063 40 ∷ [])

abbrev cache : EvidenceChainCache
cache = record {
  verified_seq = 2;
  events_count = 2;
  chain_head = 1063;
  max_event_updated_at = 10;
  verified_at = 50;
}

fills_cache : verify_evidence_chain toy_mac keys 50 early_rows none ≡ (verified, some cache)
unfolding verify_evidence_chain verify_rows evidence_chain_stats store_evidence_chain_cache finish
fills_cache = refl

later-Kept : Kept 50 (rows_of early_rows) later_rows
unfolding find_row
later-Kept = ground arith

cached_run_agrees_example :
    ((verify_evidence_chain toy_mac keys 70 later_rows (some cache)).0 ≡ verified)
    ↔ ((verify_evidence_chain toy_mac keys 70 later_rows none).0 ≡ verified)
cached_run_agrees_example =
    cached_run_agrees toy_mac keys 50 early_rows cache fills_cache later_rows (ground arith)
      later-Kept 70

-- The tail alone is verified.
tail_verifies : (verify_evidence_chain toy_mac keys 70 later_rows (some cache)).0 ≡ verified
unfolding verify_evidence_chain verify_rows evidence_chain_stats store_evidence_chain_cache finish
tail_verifies = refl
