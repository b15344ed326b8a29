-- ===== src/Store/Evidence/Chain.antt =====
-- The verifier against a description of a chain.
use live_auction_system.Prelude.{
  ℕ, suc, ◌+◌, ◌-◌, ◌≡◌, ◌≢◌, ◌↔◌, Option, none, some, arith, List, [], ◌∷◌, length, Option-cases,
  inl, inr,
}
use live_auction_system.Store.Evidence.{
  EventRow, chain_ok, MacInput, string_of, verify_rows, check_row, verify_full,
}

module _ (mac : MacInput → ℕ) (evidence_key : ℕ → Option ℕ) where
  -- The hash of a row is the MAC of its content and of the hash before it, under a key that is known.
  abbrev pub IsHashed : ℕ → EventRow → Type 0
  IsHashed prev row =
      (key : ℕ) × (evidence_key row.hmac_key_version ≡ some key)
      × (row.event_hash
          ≡ some (
              mac (record {
                key = key;
                prev = prev;
                seq = row.seq;
                event_type = row.event_type;
                payload = row.payload;
              })))

  -- Rows numbered from `expected` on, each linked to the hash before it, the first to `prev`.
  abbrev pub Chained : ℕ → ℕ → List EventRow → Type 0
  Chained expected prev [] = Unit {0}
  Chained expected prev (row ∷ rows) =
      (row.seq ≡ expected)
      × (string_of row.prev_hash ≡ prev)
      × IsHashed prev row
      × Chained (suc expected) (string_of row.event_hash) rows

  abbrev pub head_of : ℕ → List EventRow → ℕ
  head_of prev [] = prev
  head_of prev (row ∷ rows) = head_of (string_of row.event_hash) rows

  pub check_row-passes :
      (expected prev : ℕ) (row : EventRow)
      → row.seq ≡ expected
      → string_of row.prev_hash ≡ prev
      → IsHashed prev row
      → check_row mac evidence_key expected prev row ≡ none
  unfolding check_row
  check_row-passes expected prev row e p h = let (key, k, x) = h in ground (arith, e, p, k, x)

  check_row-none :
      (expected prev : ℕ) (row : EventRow)
      → check_row mac evidence_key expected prev row ≡ none
      → (row.seq ≡ expected) × (string_of row.prev_hash ≡ prev) × IsHashed prev row
  unfolding check_row
  check_row-none expected prev row h = elim (Option-cases (evidence_key row.hmac_key_version)) [
    | inl absent ↦ ground (arith, absent)
    | inr (key, found) ↦ elim (Option-cases row.event_hash) [
      | inl missing ↦ ground (arith, found, missing)
      | inr (x, hashed) ↦ (
        ground (arith, found, hashed),
        ground (arith, found, hashed),
        (key, found, ground (arith, found, hashed)),
      )
    ]
  ]

  check_row-fails :
      (expected prev : ℕ) (row : EventRow) (last head : ℕ)
      → check_row mac evidence_key expected prev row ≢ some (chain_ok last head)
  unfolding check_row
  check_row-fails expected prev row last head h =
      elim (Option-cases (evidence_key row.hmac_key_version)) [
        | inl absent ↦ ground (arith, absent, h)
        | inr (key, found) ↦ elim (Option-cases row.event_hash) [
          | inl missing ↦ ground (arith, found, missing, h)
          | inr (x, hashed) ↦ ground (arith, found, hashed, h)
        ]
      ]

  pub verify_of_Chained :
      (expected prev : ℕ) (rows : List EventRow)
      → Chained expected prev rows
      → verify_rows mac evidence_key expected prev rows
        ≡ chain_ok (expected + length rows - 1) (head_of prev rows)
  unfolding verify_rows
  verify_of_Chained expected prev [] c = ground arith
  verify_of_Chained expected prev (row ∷ rows) c =
      let ih = verify_of_Chained (suc expected) (string_of row.event_hash) rows c.3 in
      ground (arith, check_row-passes expected prev row c.0 c.1 c.2, ih, c.0)

  pub Chained-of_verify :
      (expected prev : ℕ) (rows : List EventRow) (last head : ℕ)
      → verify_rows mac evidence_key expected prev rows ≡ chain_ok last head
      → Chained expected prev rows
        × (last ≡ expected + length rows - 1)
        × (head ≡ head_of prev rows)
  unfolding verify_rows
  Chained-of_verify expected prev [] last head h = ground arith
  Chained-of_verify expected prev (row ∷ rows) last head h =
      elim (Option-cases (check_row mac evidence_key expected prev row)) [
        | inl passed ↦
            let (e, p, x) = check_row-none expected prev row passed in
            let (c, l, hd) =
              Chained-of_verify (suc expected) (string_of row.event_hash) rows last head
                (ground (arith, passed, h, e)) in
            ((e, p, x, c), ground (arith, l), hd)
        | inr (result, failed) ↦
            elim (check_row-fails expected prev row last head (ground (arith, failed, h))) [ ]
      ]

  -- `VerifyEvidenceChain`'s full pass accepts a table, with last seq n and head h, exactly if its rows
  -- are numbered 1, 2, ..., n, each carries the hash of the row before it (the empty one at first) and
  -- the MAC of its own content under a key that the key source knows, and h is the last hash.
  pub verify_full_iff :
      (rows : List EventRow) (n h : ℕ)
      → (verify_full mac evidence_key rows ≡ chain_ok n h)
        ↔ (Chained 1 0 rows × (n ≡ length rows) × (h ≡ head_of 0 rows))
  unfolding verify_full
  verify_full_iff rows n h = (accepted, accepts)
    where
      accepted :
          verify_full mac evidence_key rows ≡ chain_ok n h
          → Chained 1 0 rows × (n ≡ length rows) × (h ≡ head_of 0 rows)
      accepted v = let (c, l, e) = Chained-of_verify 1 0 rows n h v in (c, ground (arith, l), e)

      accepts :
          Chained 1 0 rows × (n ≡ length rows) × (h ≡ head_of 0 rows)
          → verify_full mac evidence_key rows ≡ chain_ok n h
      accepts c = ground (arith, verify_of_Chained 1 0 rows c.0, c.1, c.2)
