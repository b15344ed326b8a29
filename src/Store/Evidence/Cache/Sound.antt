-- ===== src/Store/Evidence/Cache/Sound.antt =====
-- A verification through the cache against the full pass.
use live_auction_system.Prelude.{
  ℕ, suc, ◌+◌, ◌-◌, ◌<◌, ◌≤◌, ◌≡◌, ◌≢◌, ◌⊎◌, ◌↔◌, inl, inr, ◌∙◌, ap, refl, sym, true, false, List,
  [], ◌∷◌, Option, none, some, length, arith, ltb, Bool-cases, ◌&&◌,
}
use live_auction_system.Store.Evidence.{
  EventRow, MacInput, VerifyResult, chain_ok, break_at, key_unavailable, verify_rows, verify_full,
}
use live_auction_system.Store.Evidence.Chain.{head_of, Chained-of_verify}
use live_auction_system.Store.Evidence.Cache.{
  StoredRow, EvidenceChainCache, Verdict, verified, broken_at, key_error, rows_of, rows_from,
  prefix_count, none_changed, keys_known, evidence_chain_stats, cache_fits,
  evidence_prefix_unchanged, ensure_evidence_keys_available, finish, full_pass, tail_pass,
  verify_evidence_chain,
}
use live_auction_system.Store.Evidence.Cache.Prefix.{
  Ascending, Kept, prefix_same, Numbered-of_Chained, verify_rows-append, keys_known-Chained,
}

verdict_of : VerifyResult → Verdict
verdict_of (chain_ok _ _) = verified
verdict_of (break_at seq) = broken_at seq
verdict_of (key_unavailable _) = key_error

verified_pass :
    (v : VerifyResult)
    → verdict_of v ≡ verified
    → (last : ℕ) × (head : ℕ) × (v ≡ chain_ok last head)
unfolding verdict_of
verified_pass (chain_ok last head) h = (last, head, refl)
verified_pass (break_at seq) h = ground (arith, h)
verified_pass (key_unavailable seq) h = ground (arith, h)

verified_no_error : verified ≢ key_error
verified_no_error = ground arith

true_no_false : true ≢ false
true_no_false = ground arith

stats_count :
    (n : ℕ) (rows : List StoredRow)
    → (evidence_chain_stats rows).max_seq ≤ n
    → prefix_count n rows ≡ (evidence_chain_stats rows).count
unfolding evidence_chain_stats prefix_count
stats_count n [] h = refl
stats_count n (r ∷ rows) h = ground (arith, h, stats_count n rows)

stats_from :
    (n : ℕ) (rows : List StoredRow)
    → (evidence_chain_stats rows).max_seq ≤ n
    → rows_from (suc n) rows ≡ []
unfolding evidence_chain_stats rows_from
stats_from n [] h = refl
stats_from n (r ∷ rows) h = ground (arith, h, stats_from n rows)

stats_changed :
    (at n : ℕ) (rows : List StoredRow)
    → (evidence_chain_stats rows).max_updated_at < at
    → none_changed at n rows ≡ true
unfolding evidence_chain_stats none_changed
stats_changed at n [] h = refl
stats_changed at n (r ∷ rows) h = ground (arith, h, stats_changed at n rows)

same_seq : (n k : ℕ) → n ≡ 1 + k - 1 → 1 + k ≡ suc n
same_seq n k h = omega (arith, h)

module _ (mac : MacInput → ℕ) (evidence_key : ℕ → Option ℕ) where
  -- What the cache says of a table that the full verification accepted.
  pub record IsCacheOf (old : List EventRow) (c : EvidenceChainCache) : Type 0 where
    pub passed : verify_full mac evidence_key old ≡ chain_ok c.verified_seq c.chain_head
    pub counted : c.events_count ≡ c.verified_seq

  finish-verdict :
      (now : ℕ) (rows : List StoredRow) (old : Option EvidenceChainCache) (v : VerifyResult)
      → (finish mac evidence_key now rows old v).0 ≡ verdict_of v
  unfolding finish verdict_of
  finish-verdict now rows old v = ground arith

  module _ (old : List EventRow) (c : EvidenceChainCache) (rows : List StoredRow)
      (is_cache : IsCacheOf old c) (ordered : Ascending 1 rows)
      (kept : Kept c.verified_at old rows) where
    full : VerifyResult
    full = verify_rows mac evidence_key 1 0 (rows_of rows)

    -- With an unchanged prefix, the full pass comes to the head of the cache and goes on from there.
    from_prefix :
        prefix_count c.verified_seq rows ≡ c.verified_seq
        → none_changed c.verified_at c.verified_seq rows ≡ true
        → full
          ≡ verify_rows mac evidence_key
              (suc c.verified_seq)
              c.chain_head
              (rows_from (suc c.verified_seq) rows)
    unfolding full verify_full
    from_prefix count same =
        let (chained, size, head) =
          Chained-of_verify mac evidence_key 1 0 old c.verified_seq c.chain_head is_cache.passed in
        let split =
          prefix_same c.verified_at c.verified_seq 1 old rows
            (Numbered-of_Chained mac evidence_key 1 0 old chained) ordered kept
            (omega (arith, size)) (omega (arith, count, size)) same in
        ap (verify_rows mac evidence_key 1 0) split
        ∙ verify_rows-append mac evidence_key 1 0 old (rows_from (suc c.verified_seq) rows) chained
        ∙ ap
            (λ k.
              verify_rows mac evidence_key k (head_of mac evidence_key 0 old)
                (rows_from (suc c.verified_seq) rows))
            (same_seq c.verified_seq (length old) size)
        ∙ ap
            (λ k.
              verify_rows mac evidence_key (suc c.verified_seq) k
                (rows_from (suc c.verified_seq) rows))
            (sym head)

    full_if_fits :
        cache_fits c (evidence_chain_stats rows) ≡ true
        → full ≡ chain_ok c.verified_seq c.chain_head
    unfolding cache_fits verify_rows
    full_if_fits fits =
        let fits_seq : (evidence_chain_stats rows).max_seq ≤ c.verified_seq =
          ground (arith, fits) in
        let count : prefix_count c.verified_seq rows ≡ c.verified_seq =
          ground (arith, fits, is_cache.counted, stats_count c.verified_seq rows fits_seq) in
        let same = stats_changed c.verified_at c.verified_seq rows (ground (arith, fits)) in
        from_prefix count same
        ∙ ap (verify_rows mac evidence_key (suc c.verified_seq) c.chain_head)
            (stats_from c.verified_seq rows fits_seq)
        ∙ ap (λ k. chain_ok k c.chain_head) (omega arith)

    module _ (now : ℕ) where
      abbrev cached : Verdict
      cached = (verify_evidence_chain mac evidence_key now rows (some c)).0

      ensured-cases :
          (ensure_evidence_keys_available mac evidence_key c.verified_seq rows ≡ true)
          ⊎ ((ensure_evidence_keys_available mac evidence_key c.verified_seq rows ≡ false)
              × (keys_known mac evidence_key c.verified_seq rows ≡ false))
      unfolding ensure_evidence_keys_available
      ensured-cases = ground arith

      by_fit :
          cache_fits c (evidence_chain_stats rows) ≡ true
          → (cached ≡ verified)
            ⊎ ((cached ≡ key_error) × (keys_known mac evidence_key c.verified_seq rows ≡ false))
      unfolding verify_evidence_chain
      by_fit fits = elim ensured-cases [
        | inl known ↦ inl (ground (arith, fits, known))
        | inr (unknown, k) ↦ inr (ground (arith, fits, unknown), k)
      ]

      unchanged :
          evidence_prefix_unchanged c rows ≡ true
          → (prefix_count c.verified_seq rows ≡ c.verified_seq)
            × (none_changed c.verified_at c.verified_seq rows ≡ true)
      unfolding evidence_prefix_unchanged
      unchanged same = ground (arith, same)

      by_tail :
          ((tail_pass mac evidence_key now rows c).0 ≡ verdict_of full)
          ⊎ (((tail_pass mac evidence_key now rows c).0 ≡ key_error)
              × (keys_known mac evidence_key c.verified_seq rows ≡ false))
      unfolding tail_pass full_pass full
      by_tail = elim ensured-cases [
        | inr (unknown, k) ↦ inr (rw (unknown, tail_pass) refl, k)
        | inl known ↦ elim (Bool-cases (evidence_prefix_unchanged c rows)) [
          | inl same ↦ inl (
              rw (known, same, tail_pass)
                (finish-verdict now rows (some c) (
                    verify_rows mac evidence_key (suc c.verified_seq) c.chain_head
                      (rows_from (suc c.verified_seq) rows))
                  ∙ ap verdict_of (sym (from_prefix (unchanged same).0 (unchanged same).1))))
          | inr changed ↦
              inl (rw (known, changed, tail_pass) (finish-verdict now rows (some c) full))
        ]
      ]

      by_behind :
          cache_fits c (evidence_chain_stats rows) ≡ false
          → (ltb 0 c.verified_seq && ltb c.verified_seq (evidence_chain_stats rows).max_seq) ≡ true
          → cached ≡ (tail_pass mac evidence_key now rows c).0
      unfolding verify_evidence_chain
      by_behind unfit behind = ground (arith, unfit, behind)

      by_whole :
          cache_fits c (evidence_chain_stats rows) ≡ false
          → (ltb 0 c.verified_seq && ltb c.verified_seq (evidence_chain_stats rows).max_seq) ≡ false
          → cached ≡ (full_pass mac evidence_key now rows (some c)).0
      unfolding verify_evidence_chain
      by_whole unfit whole = ground (arith, unfit, whole)

      full_verdict :
          (cache : Option EvidenceChainCache)
          → (full_pass mac evidence_key now rows cache).0 ≡ verdict_of full
      unfolding full_pass full
      full_verdict cache = finish-verdict now rows cache full

      uncached :
          (verify_evidence_chain mac evidence_key now rows none).0
          ≡ (full_pass mac evidence_key now rows none).0
      unfolding verify_evidence_chain
      uncached = refl

      verified_full : cache_fits c (evidence_chain_stats rows) ≡ true → verified ≡ verdict_of full
      unfolding verdict_of
      verified_full fits = sym (ap verdict_of (full_if_fits fits))

      -- The cache gives the verdict of the full pass, or misses a key.
      cached-cases :
          (cached ≡ verdict_of full)
          ⊎ ((cached ≡ key_error) × (keys_known mac evidence_key c.verified_seq rows ≡ false))
      cached-cases = elim (Bool-cases (cache_fits c (evidence_chain_stats rows))) [
        | inl fits ↦ elim (by_fit fits) [
          | inl done ↦ inl (done ∙ verified_full fits)
          | inr missed ↦ inr missed
        ]
        | inr unfit ↦
            elim (Bool-cases
              (ltb 0 c.verified_seq && ltb c.verified_seq (evidence_chain_stats rows).max_seq)) [
                | inl behind ↦ elim by_tail [
                  | inl same ↦ inl (by_behind unfit behind ∙ same)
                  | inr (missed, k) ↦ inr (by_behind unfit behind ∙ missed, k)
                ]
                | inr whole ↦ inl (by_whole unfit whole ∙ full_verdict (some c))
              ]
      ]

    full_Chained :
        verdict_of full ≡ verified → keys_known mac evidence_key c.verified_seq rows ≡ true
    unfolding full
    full_Chained passed =
        let (last, head, v) = verified_pass full passed in
        keys_known-Chained mac evidence_key c.verified_seq 1 0 rows
          (Chained-of_verify mac evidence_key 1 0 (rows_of rows) last head v).0

    -- Let a cache be of a table that the full verification accepted, and let the rows of a later table
    -- ascend from 1 and those with an `updated_at` before the cache's time have been in the old table as
    -- they are. Then the later table verifies with the cache exactly if it verifies without one.
    pub cached_verifies_iff :
        (now now' : ℕ)
        → ((verify_evidence_chain mac evidence_key now rows (some c)).0 ≡ verified)
          ↔ ((verify_evidence_chain mac evidence_key now' rows none).0 ≡ verified)
    cached_verifies_iff now now' = (sound, complete)
      where
        alone : (verify_evidence_chain mac evidence_key now' rows none).0 ≡ verdict_of full
        alone = uncached now' ∙ full_verdict now' none

        sound :
            (verify_evidence_chain mac evidence_key now rows (some c)).0 ≡ verified
            → (verify_evidence_chain mac evidence_key now' rows none).0 ≡ verified
        sound h = elim (cached-cases now) [
          | inl same ↦ alone ∙ sym same ∙ h
          | inr (missed, _) ↦ absurd (verified_no_error (sym h ∙ missed))
        ]

        complete :
            (verify_evidence_chain mac evidence_key now' rows none).0 ≡ verified
            → (verify_evidence_chain mac evidence_key now rows (some c)).0 ≡ verified
        complete h = elim (cached-cases now) [
          | inl same ↦ same ∙ sym alone ∙ h
          | inr (_, k) ↦ absurd (true_no_false (sym (full_Chained (sym alone ∙ h)) ∙ k))
        ]
