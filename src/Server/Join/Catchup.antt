-- ===== src/Server/Join/Catchup.antt =====
-- A join replays exactly what the client missed.
use live_auction_system.Prelude.{
  ℕ, zero, suc, ◌+◌, ◌-◌, ◌≤◌, ◌<◌, ◌≡◌, refl, some, arith, List, [], ◌∷◌, length,
}
use live_auction_system.Store.Stream.{StreamEvent}
use live_auction_system.Store.Stream.Emit.{after}
use live_auction_system.Server.Join.{events_up_to_snapshot, catchup, catchup_max_gap}

-- A Stream from its oldest entry, with the seqs `e`, `e` + 1, ...
abbrev pub Contiguous : ℕ → List StreamEvent → Type 0
Contiguous e [] = Unit {0}
Contiguous e (m ∷ ms) = (m.seq ≡ e) × Contiguous (suc e) ms

abbrev pub seqs : List StreamEvent → List ℕ
seqs [] = []
seqs (m ∷ ms) = m.seq ∷ seqs ms

-- `e`, `e` + 1, ..., `n` of them.
abbrev pub range : ℕ → ℕ → List ℕ
range e zero = []
range e (suc n) = e ∷ range (suc e) n

after-all : (n e : ℕ) (ms : List StreamEvent) → Contiguous e ms → n < e → after n ms ≡ ms
after-all n e [] c h = refl
after-all n e (m ∷ ms) c h = ground (arith, after-all n (suc e) ms c.1)

after-Contiguous :
    (n e : ℕ) (ms : List StreamEvent)
    → Contiguous e ms
    → e ≤ suc n
    → Contiguous (suc n) (after n ms)
after-Contiguous n e [] c h = tt
after-Contiguous n e (m ∷ ms) c h =
    ground (arith, after-Contiguous n (suc e) ms c.1, after-all n (suc e) ms c.1)

length-after :
    (n e : ℕ) (ms : List StreamEvent)
    → Contiguous e ms
    → e ≤ suc n
    → n < e + length ms
    → suc n + length (after n ms) ≡ e + length ms
length-after n e [] c h k = ground arith
length-after n e (m ∷ ms) c h k =
    ground (arith, length-after n (suc e) ms c.1, after-all n (suc e) ms c.1)

upto-none :
    (s e : ℕ) (ms : List StreamEvent) → Contiguous e ms → s < e → events_up_to_snapshot ms s ≡ []
unfolding events_up_to_snapshot
upto-none s e [] c h = refl
upto-none s e (m ∷ ms) c h = ground (arith, upto-none s (suc e) ms c.1)

upto-seqs :
    (s e n : ℕ) (ms : List StreamEvent)
    → Contiguous e ms
    → e + n ≡ suc s
    → n ≤ length ms
    → seqs (events_up_to_snapshot ms s) ≡ range e n
unfolding events_up_to_snapshot
upto-seqs s e zero ms c h k = ground (arith, upto-none s e ms c)
upto-seqs s e (suc n) [] c h k = ground arith
upto-seqs s e (suc n) (m ∷ ms) c h k = ground (arith, upto-seqs s (suc e) n ms c.1)

-- Let the Stream hold the seqs 1, 2, ..., without a gap, at least up to the snapshot's, even if more
-- were added since. A client that is behind the snapshot by at most `catchup_max_gap` is replayed
-- exactly the seqs from the one after its own to the snapshot's, in order, each once.
pub catchup-exact :
    (last_seq snapshot_seq : ℕ) (stream : List StreamEvent)
    → Contiguous 1 stream
    → snapshot_seq ≤ length stream
    → last_seq < snapshot_seq
    → snapshot_seq ≤ last_seq + catchup_max_gap
    → seqs (catchup last_seq snapshot_seq (some (after last_seq stream)))
      ≡ range (suc last_seq) (snapshot_seq - last_seq)
unfolding catchup
catchup-exact last_seq snapshot_seq stream c h k g = ground (
  arith,
  upto-seqs snapshot_seq (suc last_seq) (snapshot_seq - last_seq) (after last_seq stream)
      (after-Contiguous last_seq 1 stream c (ground arith)) (ground arith)
      (ground (arith, length-after last_seq 1 stream c)),
)
