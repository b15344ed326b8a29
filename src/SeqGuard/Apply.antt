-- ===== src/SeqGuard/Apply.antt =====
-- What a client applies of the frames that it receives.
use live_auction_system.Prelude.{
  ℕ, suc, zero, ◌+◌, ◌≡◌, ◌⊎◌, refl, true, false, if◌then◌else◌, List, [], ◌∷◌, arith,
}
use live_auction_system.Prelude.Int.{ℤ, pos, leb_ℤ, ◌+ℤ◌, ◌≤ℤ◌, ◌<ℤ◌}
use live_auction_system.SeqGuard.{Guard, gap, run}

-- The sequenced frames of a list rise strictly, from above `l`. Control frames (s <= 0) do not count.
abbrev pub Rising : ℤ → List ℤ → Type 0
Rising l [] = Unit {0}
Rising l (s ∷ frames) = elim (leb_ℤ s (pos 0)) [
  | true ↦ Rising l frames
  | false ↦ (l <ℤ s) × Rising s frames
]

-- Whatever frames arrive, duplicates and late ones among them, the sequenced frames that the client
-- applies rise strictly from its cursor: none is applied twice or out of order.
pub run-Rising : (g : Guard) (frames : List ℤ) → Rising g.last (run g frames).0
unfolding run
run-Rising g [] = tt
run-Rising g (s ∷ frames) =
    ground (arith, run-Rising g frames, run-Rising (record { last = s }) frames)

-- The largest `seq` of the frames, and at least the cursor.
abbrev pub max_seq : ℤ → List ℤ → ℤ
max_seq l [] = l
max_seq l (s ∷ frames) = max_seq (if leb_ℤ s l then l else s) frames

-- The cursor ends at the largest `seq` received, whatever the order of the frames.
pub run-last :
    (g : Guard) (frames : List ℤ) → pos 0 ≤ℤ g.last → (run g frames).1.last ≡ max_seq g.last frames
unfolding run
run-last g [] h = refl
run-last g (s ∷ frames) h =
    ground (arith, run-last g frames h, run-last (record { last = s }) frames)

-- The numbers n + 1, n + 2, ..., n + k.
abbrev pub numbers : ℕ → ℕ → List ℤ
numbers n zero = []
numbers n (suc k) = pos (n + 1) ∷ numbers (n + 1) k

-- A client that has the events up to n applies every one of the next k and ends at n + k.
pub run_in_order :
    (n k : ℕ)
    → run (record { last = pos n }) (numbers n k) ≡ (numbers n k, record { last = pos (n + k) })
unfolding run
run_in_order n zero = ground arith
run_in_order n (suc k) = ground (arith, run_in_order (n + 1) k)

-- `Gap` is the number of events between the cursor and the frame: beyond the cursor, the cursor, the
-- gap and one make the frame's `seq`; for any other frame it is 0. It is never negative.
pub gap_exact :
    (g : Guard) (s : ℤ)
    → pos 0 ≤ℤ g.last
    → (pos 0 ≤ℤ gap g s)
      × ((g.last <ℤ s) × (s ≡ g.last +ℤ gap g s +ℤ pos 1) ⊎ (s ≤ℤ g.last) × (gap g s ≡ pos 0))
unfolding gap ◌+ℤ◌
gap_exact g s h = ground arith
