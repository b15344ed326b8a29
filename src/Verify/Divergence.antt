-- ===== src/Verify/Divergence.antt =====
-- The seq that the verifier names is the first at which the two sides differ.
use live_auction_system.Prelude.{
  ℕ, ◌≤◌, ◌<◌, ◌≡◌, ◌≢◌, refl, List, [], ◌∷◌, Option, none, some, arith, inl, inr, Option-cases,
  ltb, ◌==◌, if◌then◌else◌,
}
use live_auction_system.Model.Events.{EventType}
use live_auction_system.Verify.{Seen, Reason, walk, find_mismatch}
use live_auction_system.Verify.Agreement.{walk-none}

-- The seqs rise strictly, from above `l`.
abbrev pub Ascending : ℕ → List Seen → Type 0
Ascending l [] = Unit {0}
Ascending l (e ∷ es) = (l < e.seq) × Ascending e.seq es

-- The entries before a seq.
abbrev pub before : ℕ → List Seen → List Seen
before n [] = []
before n (e ∷ es) = let rest = before n es in if ltb e.seq n then e ∷ rest else rest

-- The type of the event with a seq, if there is one.
abbrev pub type_at : ℕ → List Seen → Option EventType
type_at n [] = none
type_at n (e ∷ es) = if e.seq == n then some e.event_type else type_at n es

before_above : (n l : ℕ) (es : List Seen) → Ascending l es → n ≤ l → before n es ≡ []
before_above n l [] a h = refl
before_above n l (e ∷ es) a h = ground (arith, before_above n e.seq es a.1)

type_at_above : (n l : ℕ) (es : List Seen) → Ascending l es → n ≤ l → type_at n es ≡ none
type_at_above n l [] a h = refl
type_at_above n l (e ∷ es) a h = ground (arith, type_at_above n e.seq es a.1)

walk_above :
    (l : ℕ) (stream db : List Seen) (found : ℕ × Reason)
    → Ascending l stream
    → Ascending l db
    → walk stream db ≡ some found
    → l < found.0
unfolding walk
walk_above l [] [] found p q h = cc
walk_above l (s ∷ stream) [] found p q h = ground arith
walk_above l [] (d ∷ db) found p q h = ground arith
walk_above l (s ∷ stream) (d ∷ db) found p q h =
    ground (arith, walk_above s.seq stream db found p.1)

walk_first :
    (l : ℕ) (stream db : List Seen) (found : ℕ × Reason)
    → Ascending l stream
    → Ascending l db
    → walk stream db ≡ some found
    → (before found.0 stream ≡ before found.0 db) × (type_at found.0 stream ≢ type_at found.0 db)
unfolding walk
walk_first l [] [] found p q h = cc
walk_first l (s ∷ stream) [] found p q h = ground (arith, before_above s.seq s.seq stream p.1)
walk_first l [] (d ∷ db) found p q h = ground (arith, before_above d.seq d.seq db q.1)
walk_first l (s ∷ stream) (d ∷ db) found p q h = ground (
  arith,
  before_above s.seq s.seq stream p.1,
  before_above s.seq d.seq db q.1,
  before_above d.seq d.seq db q.1,
  before_above d.seq s.seq stream p.1,
  type_at_above s.seq d.seq db q.1,
  type_at_above d.seq s.seq stream p.1,
  walk_above s.seq stream db found p.1,
  walk_first s.seq stream db found p.1,
)

-- Where the two sides differ, both in strictly rising order of seq, the verifier names the first seq
-- at which they do: below it they hold the same events, and at it the event types differ, or one side
-- has no event.
pub first_divergence :
    (stream db : List Seen) (snap : ℕ)
    → Ascending 0 stream
    → Ascending 0 db
    → stream ≢ db
    → let n = (find_mismatch stream db snap).0 in
      (0 < n) × (before n stream ≡ before n db) × (type_at n stream ≢ type_at n db)
unfolding find_mismatch
first_divergence stream db snap p q differ = elim (Option-cases (walk stream db)) [
  | inl same ↦ absurd (differ (walk-none stream db same))
  | inr (found, e) ↦
      rw (e, find_mismatch)
        (let (agree, apart) = walk_first 0 stream db found p q e in
          (walk_above 0 stream db found p q e, agree, apart))
]
