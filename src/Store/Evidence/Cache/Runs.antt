-- ===== src/Store/Evidence/Cache/Runs.antt =====
-- A verification that fills the cache, and a later one that reads it.
use mathlib.Core.Path.{subst}
use live_auction_system.Prelude.{
  ℕ, suc, ◌≡◌, ◌≢◌, ◌↔◌, ap, refl, sym, List, [], ◌∷◌, Option, none, some, length, arith,
}
use live_auction_system.Store.Evidence.{
  MacInput, VerifyResult, chain_ok, break_at, key_unavailable, verify_full,
}
use live_auction_system.Store.Evidence.Chain.{Chained-of_verify}
use live_auction_system.Store.Evidence.Cache.{
  StoredRow, EvidenceChainCache, verified, rows_of, evidence_chain_stats, finish, full_pass,
  store_evidence_chain_cache, verify_evidence_chain,
}
use live_auction_system.Store.Evidence.Cache.Prefix.{Ascending, Kept}
use live_auction_system.Store.Evidence.Cache.Sound.{IsCacheOf, cached_verifies_iff}

stats_length : (rows : List StoredRow) → (evidence_chain_stats rows).count ≡ length (rows_of rows)
unfolding evidence_chain_stats
stats_length [] = refl
stats_length (r ∷ rows) = ap suc (stats_length rows)

module _ (mac : MacInput → ℕ) (evidence_key : ℕ → Option ℕ) (now : ℕ) (rows : List StoredRow)
    (c : EvidenceChainCache) where
  finish_stored :
      (last head : ℕ)
      → finish mac evidence_key now rows none (chain_ok last head) ≡ (verified, some c)
      → (c.verified_seq ≡ last)
        × (c.chain_head ≡ head)
        × (c.events_count ≡ (evidence_chain_stats rows).count)
        × (c.verified_at ≡ now)
  unfolding finish store_evidence_chain_cache
  finish_stored last head h = ground (arith, h)

  finish_broken :
      (seq : ℕ) → finish mac evidence_key now rows none (break_at seq) ≢ (verified, some c)
  unfolding finish
  finish_broken seq h = ground (arith, h)

  finish_unknown :
      (seq : ℕ) → finish mac evidence_key now rows none (key_unavailable seq) ≢ (verified, some c)
  unfolding finish
  finish_unknown seq h = ground (arith, h)

  stored_pass :
      (v : VerifyResult)
      → verify_full mac evidence_key (rows_of rows) ≡ v
      → finish mac evidence_key now rows none v ≡ (verified, some c)
      → IsCacheOf mac evidence_key (rows_of rows) c × (c.verified_at ≡ now)
  unfolding verify_full
  stored_pass (chain_ok last head) e h =
      let (seq, tip, count, at) = finish_stored last head h in
      let (_, size, _) = Chained-of_verify mac evidence_key 1 0 (rows_of rows) last head e in
      (
        record {
          passed = ground (arith, e, seq, tip);
          counted = ground (arith, count, seq, size, stats_length rows);
        },
        at,
      )
  stored_pass (break_at seq) e h = absurd (finish_broken seq h)
  stored_pass (key_unavailable seq) e h = absurd (finish_unknown seq h)

  stored_IsCacheOf :
      verify_evidence_chain mac evidence_key now rows none ≡ (verified, some c)
      → IsCacheOf mac evidence_key (rows_of rows) c × (c.verified_at ≡ now)
  unfolding verify_evidence_chain full_pass verify_full
  stored_IsCacheOf h = stored_pass (verify_full mac evidence_key (rows_of rows)) refl h

  -- Let a verification without a cache, begun at a time, have succeeded and stored a cache. Let the rows
  -- of a later table ascend from 1, and those with an `updated_at` before that time have been in the
  -- table as they are. Then the later table verifies with the cache exactly if it verifies without one.
  pub cached_run_agrees :
      verify_evidence_chain mac evidence_key now rows none ≡ (verified, some c)
      → (later : List StoredRow) → Ascending 1 later
      → Kept now (rows_of rows) later
      → (then_now : ℕ)
      → ((verify_evidence_chain mac evidence_key then_now later (some c)).0 ≡ verified)
        ↔ ((verify_evidence_chain mac evidence_key then_now later none).0 ≡ verified)
  cached_run_agrees h later ordered kept then_now =
      let (is_cache, at) = stored_IsCacheOf h in
      cached_verifies_iff mac evidence_key (rows_of rows) c later is_cache ordered
        (subst (λ k. Kept k (rows_of rows) later) (sym at) kept) then_now then_now
