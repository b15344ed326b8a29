-- ===== src/Store/Evidence/Tamper.antt =====
-- What the head of a verified chain pins down.
use live_auction_system.Prelude.{
  ℕ, suc, ◌≡◌, ◌≢◌, ◌⊎◌, inl, inr, sym, ap, ◌∙◌, Option, arith, List, [], ◌∷◌, length,
}
use live_auction_system.Store.Evidence.{
  EventRow, chain_ok, MacInput, MacInput-discrete, string_of, verify_full,
}
use live_auction_system.Store.Evidence.Chain.{Chained, head_of, IsHashed, verify_full_iff}

-- The same events, whatever their stored hashes.
abbrev pub SameEvents : List EventRow → List EventRow → Type 0
SameEvents [] [] = Unit {0}
SameEvents (r ∷ rs) (q ∷ qs) =
    (r.seq ≡ q.seq) × (r.event_type ≡ q.event_type) × (r.payload ≡ q.payload) × SameEvents rs qs
SameEvents _ _ = ⊥

-- Two different inputs with the same MAC.
abbrev pub Collision : (MacInput → ℕ) → Type 0
Collision mac = (x y : MacInput) × (x ≢ y) × (mac x ≡ mac y)

module _ (mac : MacInput → ℕ) (evidence_key : ℕ → Option ℕ) where
  input_of : ℕ → ℕ → EventRow → MacInput
  input_of key prev row = record {
    key = key;
    prev = prev;
    seq = row.seq;
    event_type = row.event_type;
    payload = row.payload;
  }

  row_same :
      (expected p q : ℕ) (x y : EventRow) (rs qs : List EventRow)
      → IsHashed mac evidence_key p x
      → IsHashed mac evidence_key q y
      → x.seq ≡ y.seq
      → SameEvents rs qs
      → string_of x.event_hash ≡ string_of y.event_hash
      → (SameEvents (x ∷ rs) (y ∷ qs) × (p ≡ q)) ⊎ Collision mac
  unfolding input_of
  row_same expected p q x y rs qs (k, _, e) (j, _, f) s same h =
      elim (MacInput-discrete (input_of k p x) (input_of j q y)) [
        | yes equal ↦ inl (
          (s, ap (λ i. i.event_type) equal, ap (λ i. i.payload) equal, same),
          ap (λ i. i.prev) equal,
        )
        | no differ ↦ inr (input_of k p x, input_of j q y, differ, ground (arith, e, f, h))
      ]

  same_head :
      (expected p q : ℕ) (rs qs : List EventRow)
      → Chained mac evidence_key expected p rs
      → Chained mac evidence_key expected q qs
      → length rs ≡ length qs
      → head_of mac evidence_key p rs ≡ head_of mac evidence_key q qs
      → (SameEvents rs qs × (p ≡ q)) ⊎ Collision mac
  same_head expected p q [] [] c d l h = inl (tt, h)
  same_head expected p q [] (y ∷ qs) c d l h = ground (arith, l)
  same_head expected p q (x ∷ rs) [] c d l h = ground (arith, l)
  same_head expected p q (x ∷ rs) (y ∷ qs) c d l h =
      elim (same_head (suc expected) (string_of x.event_hash) (string_of y.event_hash) rs qs c.3 d.3
        (ground (arith, l)) h) [
          | inl same ↦ row_same expected p q x y rs qs c.2 d.2 (c.0 ∙ sym d.0) same.0 same.1
          | inr found ↦ inr found
        ]

  -- If the full pass accepts two tables with the same last seq and the same head, then they hold the
  -- same events (seqs, types and payloads), or there are two different MAC inputs with the same MAC: to
  -- change the history under a head means to find a collision.
  pub same_head-SameEvents :
      (rs qs : List EventRow) (n h : ℕ)
      → verify_full mac evidence_key rs ≡ chain_ok n h
      → verify_full mac evidence_key qs ≡ chain_ok n h
      → SameEvents rs qs ⊎ Collision mac
  same_head-SameEvents rs qs n h v w =
      let (c, l, e) = (verify_full_iff mac evidence_key rs n h).0 v in
      let (d, k, f) = (verify_full_iff mac evidence_key qs n h).0 w in
      elim (same_head 1 0 0 rs qs c d (sym l ∙ k) (sym e ∙ f)) [
        | inl same ↦ inl same.0
        | inr found ↦ inr found
      ]
