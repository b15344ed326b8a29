-- ===== src/Verify/Agreement.antt =====
-- What a verdict of the verifier means.
use live_auction_system.Prelude.{
  ℕ, ◌<◌, ◌≡◌, ◌↔◌, ◌⊎◌, refl, Bool, true, List, [], ◌∷◌, none, some, arith, All, ap, inl, inr,
  Option-cases,
}
use live_auction_system.Verify.{
  Seen, walk, find_mismatch, tip_seq, VerifyReport, Reason, consistent, compute_verify_report,
}

pub walk-none : (stream db : List Seen) → walk stream db ≡ none → stream ≡ db
unfolding walk
walk-none [] [] h = refl
walk-none (s ∷ stream) [] h = cc
walk-none [] (d ∷ db) h = cc
walk-none (s ∷ stream) (d ∷ db) h = ground (arith, walk-none stream db)

walk_self : (stream : List Seen) → walk stream stream ≡ none
unfolding walk
walk_self [] = refl
walk_self (s ∷ stream) = ground (arith, walk_self stream)

-- Every seq is positive, as HINCRBY from 0 gives them.
abbrev pub Positive : List Seen → Type 0
Positive = All (λ e. 0 < e.seq)

walk-Positive :
    (stream db : List Seen) (found : ℕ × Reason)
    → Positive stream
    → Positive db
    → walk stream db ≡ some found
    → 0 < found.0
unfolding walk
walk-Positive [] [] found p q h = cc
walk-Positive (s ∷ stream) [] found p q h = ground arith
walk-Positive [] (d ∷ db) found p q h = ground arith
walk-Positive (s ∷ stream) (d ∷ db) found p q h =
    ground (arith, walk-Positive stream db found p.1 q.1)

tip-Positive : (e : Seen) (es : List Seen) → Positive (e ∷ es) → 0 < tip_seq (e ∷ es)
unfolding tip_seq
tip-Positive e [] p = p.0
tip-Positive e (f ∷ es) p = tip-Positive f es p.1

-- The snapshot is in step with the Stream: absent, or at its tip, or the Stream has no event, since then
-- findMismatch does not look at it.
abbrev pub InStep : ℕ → List Seen → Type 0
InStep snap stream = (snap ≡ 0) ⊎ ((stream ≡ []) ⊎ (snap ≡ tip_seq stream))

find_mismatch_agreed :
    (stream db : List Seen) (snap : ℕ)
    → walk stream db ≡ none
    → Positive stream
    → (find_mismatch stream db snap).0 ≡ 0
    → InStep snap stream
unfolding find_mismatch
find_mismatch_agreed [] db snap e p h = inr (inl refl)
find_mismatch_agreed (s ∷ stream) db snap e p h = ground (arith, tip-Positive s stream p)

find_mismatch-zero :
    (stream db : List Seen) (snap : ℕ)
    → Positive stream
    → Positive db
    → (find_mismatch stream db snap).0 ≡ 0
    → (stream ≡ db) × InStep snap stream
unfolding find_mismatch
find_mismatch-zero stream db snap p q h = elim (Option-cases (walk stream db)) [
  | inl same ↦ (walk-none stream db same, find_mismatch_agreed stream db snap same p h)
  | inr (found, e) ↦ ground (arith, walk-Positive stream db found p q e)
]

find_mismatch_of_same :
    (stream : List Seen) (snap : ℕ) → InStep snap stream → (find_mismatch stream stream snap).0 ≡ 0
unfolding find_mismatch
find_mismatch_of_same [] snap h = ground (arith, walk_self [])
find_mismatch_of_same (s ∷ stream) snap h = ground (arith, walk_self (s ∷ stream))

-- The report of a run whose reads succeeded says `consistent` exactly if the projection has the same
-- sequence of (seq, type) as the Stream, the snapshot is absent or at the Stream's tip or the Stream is
-- empty, and the hash chain verifies, where every seq is positive and a broken chain names a positive seq.
pub consistent_iff :
    (snap : ℕ) (stream db : List Seen) (ok : Bool) (break_at : ℕ)
    → Positive stream
    → Positive db
    → (ok ≡ true) ⊎ (0 < break_at)
    → (report : VerifyReport)
    → compute_verify_report (some snap) (some stream) (some db) (some (ok, break_at)) ≡ some report
    → (consistent report ≡ true) ↔ ((stream ≡ db) × InStep snap stream × (ok ≡ true))
unfolding compute_verify_report consistent
consistent_iff snap stream db ok break_at p q named report h = (
  λ good. ground (arith, find_mismatch-zero stream db snap p q),
  λ (same, step, good).
      ground
        (arith, find_mismatch_of_same stream snap step, ap (λ l. find_mismatch stream l snap) same),
)
