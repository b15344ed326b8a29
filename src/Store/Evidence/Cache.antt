-- ===== src/Store/Evidence/Cache.antt =====
-- The verified-prefix cache of VerifyEvidenceChain, in apps/lumen/internal/store/storedb.go. A failing
-- read or write is left out; times are numbers, and the epoch is 0.
pub mod Prefix
pub mod Sound
pub mod Runs
mod Tests
use live_auction_system.Prelude.{
  ℕ, suc, ◌+◌, Bool, true, false, ◌&&◌, not, if◌then◌else◌, ltb, leb, ◌==◌, List, [], ◌∷◌, Option,
  none, some, length, map,
}
use live_auction_system.Store.Evidence.{
  EventRow, MacInput, VerifyResult, chain_ok, break_at, key_unavailable, verify_rows, string_of,
}

-- A row with its `updated_at`.
pub record StoredRow : Type 0 where
  pub row : EventRow
  pub updated_at : ℕ

-- `evidenceChainCache`
pub record EvidenceChainCache : Type 0 where
  pub verified_seq : ℕ
  pub events_count : ℕ
  pub chain_head : ℕ
  pub max_event_updated_at : ℕ
  pub verified_at : ℕ

-- `evidenceChainStats`
pub record EvidenceChainStats : Type 0 where
  pub count : ℕ
  pub max_seq : ℕ
  pub tip_hash : ℕ
  pub max_updated_at : ℕ

pub data Verdict : Type 0 where
  verified : Verdict
  broken_at : ℕ → Verdict
  key_error : Verdict

abbrev max : ℕ → ℕ → ℕ
max a b = if ltb a b then b else a

-- The aggregates of the two queries, row by row in key order.
unfoldable pub evidence_chain_stats : List StoredRow → EvidenceChainStats
evidence_chain_stats [] = record { count = 0; max_seq = 0; tip_hash = 0; max_updated_at = 0 }
evidence_chain_stats (r ∷ rows) =
    let rest = evidence_chain_stats rows in
    record {
      count = suc rest.count;
      max_seq = max r.row.seq rest.max_seq;
      tip_hash = if ltb rest.max_seq r.row.seq then string_of r.row.event_hash else rest.tip_hash;
      max_updated_at = max r.updated_at rest.max_updated_at;
    }

abbrev pub rows_of : List StoredRow → List EventRow
rows_of [] = []
rows_of (r ∷ rows) = r.row ∷ rows_of rows

-- `seq >= ?`
unfoldable pub rows_from : ℕ → List StoredRow → List EventRow
rows_from seq [] = []
rows_from seq (r ∷ rows) =
    let rest = rows_from seq rows in if leb seq r.row.seq then r.row ∷ rest else rest

-- COUNT(*) of the rows up to a seq.
unfoldable pub prefix_count : ℕ → List StoredRow → ℕ
prefix_count seq [] = 0
prefix_count seq (r ∷ rows) =
    let rest = prefix_count seq rows in if leb r.row.seq seq then suc rest else rest

-- Whether no row up to a seq has an `updated_at` of at least the time.
unfoldable pub none_changed : ℕ → ℕ → List StoredRow → Bool
none_changed at seq [] = true
none_changed at seq (r ∷ rows) =
    let rest = none_changed at seq rows in
    if leb r.row.seq seq && leb at r.updated_at then false else rest

-- Whether the row at a seq has this hash, and not NULL.
unfoldable pub head_is : ℕ → ℕ → List StoredRow → Bool
head_is head seq [] = false
head_is head seq (r ∷ rows) =
    let rest = head_is head seq rows in
    if r.row.seq == seq then elim r.row.event_hash [ none ↦ false | some h ↦ h == head ] else rest

-- `evidencePrefixUnchanged`
unfoldable pub evidence_prefix_unchanged : EvidenceChainCache → List StoredRow → Bool
unfolding prefix_count none_changed head_is
evidence_prefix_unchanged c rows =
    (prefix_count c.verified_seq rows == c.verified_seq)
    && none_changed c.verified_at c.verified_seq rows
    && head_is c.chain_head c.verified_seq rows

-- Before the first read of the tip, `maxSeq == 0` returns an empty hash.
unfoldable pub cache_fits : EvidenceChainCache → EvidenceChainStats → Bool
cache_fits c st =
    (c.verified_seq == st.max_seq)
    && (c.events_count == st.count)
    && (c.chain_head == st.tip_hash)
    && ltb st.max_updated_at c.verified_at

-- `storeEvidenceChainCache`, on the cache row that was there.
unfoldable pub store_evidence_chain_cache :
    ℕ → ℕ → ℕ → List StoredRow → Option EvidenceChainCache → Option EvidenceChainCache
unfolding evidence_chain_stats
store_evidence_chain_cache verified_seq head at rows old =
    let st = evidence_chain_stats rows in
    if (st.max_seq == verified_seq) && (st.tip_hash == head)
    then some (record {
      verified_seq = verified_seq;
      events_count = st.count;
      chain_head = head;
      max_event_updated_at = st.max_updated_at;
      verified_at = at;
    })
    else old

module _ (mac : MacInput → ℕ) (evidence_key : ℕ → Option ℕ) where
  -- Whether the keys of all rows up to a seq are known.
  unfoldable pub keys_known : ℕ → List StoredRow → Bool
  keys_known seq [] = true
  keys_known seq (r ∷ rows) =
      let rest = keys_known seq rows in
      if leb r.row.seq seq
      then elim (evidence_key r.row.hmac_key_version) [ none ↦ false | some _ ↦ rest ]
      else rest

  -- `ensureEvidenceKeysAvailable`
  unfoldable pub ensure_evidence_keys_available : ℕ → List StoredRow → Bool
  unfolding keys_known
  ensure_evidence_keys_available seq rows = if seq == 0 then true else keys_known seq rows

  -- What becomes of a pass: its verdict, and the cache.
  unfoldable pub finish :
      ℕ
      → List StoredRow
      → Option EvidenceChainCache
      → VerifyResult
      → Verdict × Option EvidenceChainCache
  unfolding store_evidence_chain_cache
  finish now rows old (chain_ok last head) =
      (verified, store_evidence_chain_cache last head now rows old)
  finish now rows old (break_at seq) = (broken_at seq, old)
  finish now rows old (key_unavailable seq) = (key_error, old)

  unfoldable pub full_pass :
      ℕ → List StoredRow → Option EvidenceChainCache → Verdict × Option EvidenceChainCache
  unfolding finish verify_rows
  full_pass now rows old = finish now rows old (verify_rows mac evidence_key 1 0 (rows_of rows))

  -- From a cache whose seq is behind the last one.
  unfoldable pub tail_pass :
      ℕ → List StoredRow → EvidenceChainCache → Verdict × Option EvidenceChainCache
  unfolding finish verify_rows full_pass ensure_evidence_keys_available evidence_prefix_unchanged
      rows_from
  tail_pass now rows c =
      if not (ensure_evidence_keys_available c.verified_seq rows)
      then (key_error, some c)
      else if evidence_prefix_unchanged c rows
      then finish now rows (some c) (
          verify_rows mac evidence_key (suc c.verified_seq) c.chain_head
            (rows_from (suc c.verified_seq) rows))
      else full_pass now rows (some c)

  -- `VerifyEvidenceChain`, with the cache row before and after. `now` is the database's NOW(6).
  unfoldable pub verify_evidence_chain :
      ℕ → List StoredRow → Option EvidenceChainCache → Verdict × Option EvidenceChainCache
  unfolding full_pass tail_pass evidence_chain_stats ensure_evidence_keys_available cache_fits
  verify_evidence_chain now rows none = full_pass now rows none
  verify_evidence_chain now rows (some c) =
      let st = evidence_chain_stats rows in
      if cache_fits c st
      then if ensure_evidence_keys_available c.verified_seq rows
        then (verified, some c)
        else (key_error, some c)
      else if ltb 0 c.verified_seq && ltb c.verified_seq st.max_seq
      then tail_pass now rows c
      else full_pass now rows (some c)
