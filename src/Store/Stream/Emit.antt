-- ===== src/Store/Stream/Emit.antt =====
-- What one chunk of apps/lumen/internal/store/store.go's `collectStreamEvents` appends.
use live_auction_system.Prelude.{
  ℕ, ◌<◌, ◌≤◌, ◌≡◌, refl, if◌then◌else◌, ltb, List, [], ◌∷◌, Option, some, arith,
}
use live_auction_system.Store.Stream.{StreamEvent, emit_chunk}

-- The Stream from its oldest entry: the seqs rise strictly, from above `l`.
abbrev pub Ordered : ℕ → List StreamEvent → Type 0
Ordered l [] = Unit {0}
Ordered l (m ∷ ms) = (l < m.seq) × Ordered m.seq ms

-- The events with a seq above `n`.
abbrev pub after : ℕ → List StreamEvent → List StreamEvent
after n [] = []
after n (m ∷ ms) = let rest = after n ms in if ltb n m.seq then m ∷ rest else rest

abbrev pub last_seq_or : ℕ → List StreamEvent → ℕ
last_seq_or n [] = n
last_seq_or n (m ∷ ms) = last_seq_or m.seq ms

pub after_below : (n l : ℕ) (ms : List StreamEvent) → Ordered l ms → n ≤ l → after n ms ≡ ms
after_below n l [] o h = refl
after_below n l (m ∷ ms) o h = ground (arith, after_below n m.seq ms o.1)

-- On an ordered chunk `collectStreamEvents` emits exactly the events above the cursor `n`, in their
-- order, and leaves the cursor at the last of them.
pub emit_chunk_lem :
    (n l : ℕ) (given : Option ℕ) (ms : List StreamEvent)
    → Ordered l ms
    → ((emit_chunk n given ms).out ≡ after n ms)
      × ((emit_chunk n given ms).last_seq ≡ last_seq_or n (after n ms))
unfolding emit_chunk
emit_chunk_lem n l given [] o = (refl, refl)
emit_chunk_lem n l given (m ∷ ms) o = ground (
  arith,
  emit_chunk_lem n m.seq given ms o.1,
  emit_chunk_lem m.seq m.seq (some m.id) ms o.1,
  after_below n m.seq ms o.1,
  after_below m.seq m.seq ms o.1,
)
