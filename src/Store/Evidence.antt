-- ===== src/Store/Evidence.antt =====
-- The hash chain over `auction_events` in apps/lumen/internal/store/storedb.go. The rows of one
-- auction are a list in the order of `seq`, its key. NULL is `none`; a hash, a type name and a
-- payload (as MySQL normalizes it) are only compared, so they are numbers, and 0 is the empty string.
pub mod Chain
pub mod Tamper
pub mod Project
pub mod Keys
pub mod Cache
mod Tests
use live_auction_system.Prelude.{
  ℕ, zero, suc, ◌+◌, ◌-◌, Bool, true, false, ◌&&◌, ◌||◌, not, Option, none, some, if◌then◌else◌,
  ltb, leb, ◌==◌, List, [], ◌∷◌, ℕ_discrete,
}

pub record EventRow : Type 0 where
  pub seq : ℕ
  pub event_type : ℕ
  pub payload : ℕ
  pub event_hash : Option ℕ
  pub prev_hash : Option ℕ
  pub hmac_key_version : ℕ

-- `NullString.String`
abbrev pub string_of : Option ℕ → ℕ
string_of none = 0
string_of (some h) = h

pub data InsertResult : Type 0 where
  insert_ok err_event_payload_mismatch err_previous_event_hash_missing err_no_rows : InsertResult

-- The row with a given seq.
unfoldable pub find_row : ℕ → List EventRow → Option EventRow
find_row seq [] = none
find_row seq (row ∷ rows) = if row.seq == seq then some row else find_row seq rows

abbrev pub or_row : Option EventRow → EventRow → EventRow
or_row none row = row
or_row (some r) _ = r

-- `WHERE seq < ? ORDER BY seq DESC LIMIT 1`
unfoldable pub prior_row : ℕ → List EventRow → Option EventRow
prior_row seq [] = none
prior_row seq (row ∷ rows) =
    let rest = prior_row seq rows in if ltb row.seq seq then some (or_row rest row) else rest

-- INSERT of a new row, in key order.
unfoldable pub insert_row : EventRow → List EventRow → List EventRow
insert_row new [] = new ∷ []
insert_row new (row ∷ rows) =
    let rest = insert_row new rows in if ltb new.seq row.seq then new ∷ row ∷ rows else row ∷ rest

-- `event_hash IS NULL`
unfoldable pub is_null : Option ℕ → Bool
is_null none = true
is_null (some _) = false

-- The UPDATE of `fillEventHash`.
unfoldable pub set_hash : ℕ → ℕ → ℕ → ℕ → List EventRow → List EventRow
unfolding is_null
set_hash seq h prev version [] = []
set_hash seq h prev version (row ∷ rows) =
    let rest = set_hash seq h prev version rows in
    if row.seq == seq && is_null row.event_hash
    then (record row { event_hash = some h; prev_hash = some prev; hmac_key_version = version })
      ∷ rest
    else row ∷ rest

-- A row whose event_hash is set.
abbrev pub is_chained : EventRow → Bool
is_chained row = not (string_of row.event_hash == 0)

-- What the verifier returns: the last seq and the head, or the seq at which the chain breaks.
pub data VerifyResult : Type 0 where
  chain_ok : ℕ → ℕ → VerifyResult
  break_at : ℕ → VerifyResult
  key_unavailable : ℕ → VerifyResult

-- What one hash is computed from: the key, prev_hash, seq, event_type and payload.
pub record MacInput : Type 0 where
  pub key : ℕ
  pub prev : ℕ
  pub seq : ℕ
  pub event_type : ℕ
  pub payload : ℕ

pub MacInput-discrete : Discrete MacInput
MacInput-discrete = hlevel ℕ_discrete

-- HMAC-SHA256 is a parameter, and so is the `EvidenceKeySource`.
module _ (mac : MacInput → ℕ) (evidence_key : ℕ → Option ℕ) where
  -- `evidenceHashWithKey`
  abbrev pub evidence_hash_with_key : ℕ → ℕ → ℕ → ℕ → ℕ → ℕ
  evidence_hash_with_key key prev seq event_type payload =
      mac (record { key = key; prev = prev; seq = seq; event_type = event_type; payload = payload })

  -- The link that `fillEventHash` writes, after its contiguity guard. `prev` is the closest row.
  unfoldable pub link_of : ℕ → Option EventRow → Option ℕ
  link_of seq none = if ltb 1 seq then none else some 0
  link_of seq (some prev) =
      if prev.seq + 1 == seq && is_chained prev then some (string_of prev.event_hash) else none

  -- `fillEventHash` for a row that is not chained, with the store's own key and version.
  unfoldable pub chain_row : ℕ → ℕ → EventRow → List EventRow → InsertResult × List EventRow
  unfolding link_of prior_row set_hash
  chain_row key version row rows = elim (link_of row.seq (prior_row row.seq rows)) [
    | none ↦ (err_previous_event_hash_missing, rows)
    | some prev ↦ (
      insert_ok,
      set_hash row.seq (evidence_hash_with_key key prev row.seq row.event_type row.payload) prev
          version rows,
    )
  ]

  -- `fillEventHash`
  unfoldable pub fill_event_hash : ℕ → ℕ → ℕ → List EventRow → InsertResult × List EventRow
  unfolding chain_row find_row
  fill_event_hash key version seq rows = elim (find_row seq rows) [
    | none ↦ (err_no_rows, rows)
    | some row ↦ if is_chained row then (insert_ok, rows) else chain_row key version row rows
  ]

  -- `InsertEvent`
  unfoldable pub insert_event : ℕ → ℕ → ℕ → ℕ → ℕ → List EventRow → InsertResult × List EventRow
  unfolding fill_event_hash insert_row find_row
  insert_event key version seq event_type payload rows = elim (find_row seq rows) [
    | none ↦ fill_event_hash key version seq (
        insert_row
          (record {
            seq = seq;
            event_type = event_type;
            payload = payload;
            event_hash = none;
            prev_hash = none;
            hmac_key_version = 1;
          })
          rows)
    | some row ↦
        if row.event_type == event_type && row.payload == payload
        then fill_event_hash key version seq rows
        else (err_event_payload_mismatch, rows)
  ]

  -- The projection of events with consecutive seqs, up to the first error.
  unfoldable pub project : ℕ → ℕ → ℕ → List (ℕ × ℕ) → List EventRow → InsertResult × List EventRow
  unfolding insert_event
  project key version seq [] rows = (insert_ok, rows)
  project key version seq ((event_type, payload) ∷ events) rows =
      let out = insert_event key version seq event_type payload rows in
      let rest = project key version (suc seq) events out.1 in
      elim out.0 [ insert_ok ↦ rest | _ ↦ out ]

  -- The checks of `verifyEvidenceChainRows` on one row: `none` is a pass.
  unfoldable pub check_row : ℕ → ℕ → EventRow → Option VerifyResult
  check_row expected prev row =
      if not (row.seq == expected)
      then some (break_at row.seq)
      else if not (string_of row.prev_hash == prev)
      then some (break_at row.seq)
      else elim (evidence_key row.hmac_key_version) [
        | none ↦ some (key_unavailable row.seq)
        | some key ↦ elim row.event_hash [
          | none ↦ some (break_at row.seq)
          | some h ↦
              if h == evidence_hash_with_key key prev row.seq row.event_type row.payload
              then none
              else some (break_at row.seq)
        ]
      ]

  -- The loop of `verifyEvidenceChainRows`; `lastSeq` is expectedSeq - 1 and `head` is prev throughout.
  unfoldable pub verify_rows : ℕ → ℕ → List EventRow → VerifyResult
  unfolding check_row
  verify_rows expected prev [] = chain_ok (expected - 1) prev
  verify_rows expected prev (row ∷ rows) =
      let rest = verify_rows (suc row.seq) (string_of row.event_hash) rows in
      elim (check_row expected prev row) [ none ↦ rest | some result ↦ result ]

  -- The full pass of `VerifyEvidenceChain`, from seq 1 and the empty hash.
  unfoldable pub verify_full : List EventRow → VerifyResult
  unfolding verify_rows
  verify_full rows = verify_rows 1 0 rows
