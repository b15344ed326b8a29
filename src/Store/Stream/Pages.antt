-- ===== src/Store/Stream/Pages.antt =====
-- One page of an auction's Stream, as XRANGE returns it.
use live_auction_system.Prelude.{
  ℕ, zero, suc, ◌<◌, ◌≤◌, ◌≡◌, ◌≢◌, ◌⊎◌, inl, inr, ap, refl, if◌then◌else◌, leb, List, [], ◌∷◌,
  ◌++◌, arith, length, take, All,
}
use live_auction_system.Store.Stream.{StreamEvent, last_id, stream_id_seq}
use live_auction_system.Store.Stream.Emit.{Ordered, after, after_below, last_seq_or}

-- The entries with an id of at least `n`, oldest first: XRANGE from the id on.
abbrev pub from : ℕ → List StreamEvent → List StreamEvent
from n [] = []
from n (m ∷ ms) = let rest = from n ms in if leb n m.id then m ∷ rest else rest

abbrev pub drop : ℕ → List StreamEvent → List StreamEvent
drop zero xs = xs
drop (suc n) [] = []
drop (suc n) (x ∷ xs) = drop n xs

abbrev pub SeqIds : List StreamEvent → Type 0
SeqIds ms = All (λ m. m.id ≡ m.seq) ms

≤-cases : (a b : ℕ) → (a < b) ⊎ ((a ≡ b) ⊎ (b < a))
≤-cases a b = ground arith

from_below :
    (n l : ℕ) (ms : List StreamEvent) → Ordered l ms → SeqIds ms → n ≤ suc l → from n ms ≡ ms
from_below n l [] o i h = refl
from_below n l (m ∷ ms) o i h = ground (arith, o.0, i.0, h, from_below n m.seq ms o.1 i.1)

pub from_cases :
    (n l : ℕ) (ms : List StreamEvent)
    → Ordered l ms
    → SeqIds ms
    → (from n ms ≡ after n ms)
      ⊎ ((m : StreamEvent) × (l < m.seq) × (m.seq ≡ n) × (m.id ≡ n) × (from n ms ≡ m ∷ after n ms))
from_cases n l [] o i = inl refl
from_cases n l (m ∷ ms) o i = elim (≤-cases m.seq n) [
  | inl lower ↦ elim (from_cases n m.seq ms o.1 i.1) [
    | inl same ↦ inl (ground (arith, lower, i.0, same))
    | inr (k, b, s, d, e) ↦ inr (k, omega (arith, o.0, b), s, d, ground (arith, lower, i.0, e))
  ]
  | inr (inl equal) ↦ inr (
    m,
    o.0,
    equal,
    ground (arith, equal, i.0),
    ground (arith, equal, i.0, from_below n m.seq ms o.1 i.1, after_below n m.seq ms o.1),
  )
  | inr (inr above) ↦
      inl (ground (arith, above, i.0, from_below n m.seq ms o.1 i.1, after_below n m.seq ms o.1))
]

pub after-Ordered : (n l : ℕ) (ms : List StreamEvent) → Ordered l ms → Ordered n (after n ms)
after-Ordered n l [] o = tt
after-Ordered n l (m ∷ ms) o =
    ground (arith, o.0, after-Ordered n m.seq ms o.1, after_below n m.seq ms o.1)

pub after-SeqIds : (n : ℕ) (ms : List StreamEvent) → SeqIds ms → SeqIds (after n ms)
after-SeqIds n [] i = tt
after-SeqIds n (m ∷ ms) i = ground (arith, i, after-SeqIds n ms i.1)

pub take-Ordered : (k l : ℕ) (ms : List StreamEvent) → Ordered l ms → Ordered l (take k ms)
take-Ordered zero l ms o = tt
take-Ordered (suc k) l [] o = tt
take-Ordered (suc k) l (m ∷ ms) o = (o.0, take-Ordered k m.seq ms o.1)

pub take-SeqIds : (k : ℕ) (ms : List StreamEvent) → SeqIds ms → SeqIds (take k ms)
take-SeqIds zero ms o = tt
take-SeqIds (suc k) [] o = tt
take-SeqIds (suc k) (m ∷ ms) o = (o.0, take-SeqIds k ms o.1)

pub after-after : (n a : ℕ) (ms : List StreamEvent) → n ≤ a → after a (after n ms) ≡ after a ms
after-after n a [] h = refl
after-after n a (m ∷ ms) h = ground (arith, h, after-after n a ms h)

pub last_seq_or-above : (n l : ℕ) (ms : List StreamEvent) → Ordered n ms → n ≤ last_seq_or n ms
last_seq_or-above n l [] o = omega arith
last_seq_or-above n l (m ∷ ms) o = omega (arith, o.0, last_seq_or-above m.seq l ms o.1)

pub after-take :
    (k n : ℕ) (ms : List StreamEvent)
    → Ordered n ms
    → after (last_seq_or n (take k ms)) ms ≡ drop k ms
after-take zero n ms o = after_below n n ms o (omega arith)
after-take (suc k) n [] o = refl
after-take (suc k) n (m ∷ ms) o = ground (
  arith,
  o.0,
  after-take k m.seq ms o.1,
  last_seq_or-above m.seq m.seq (take k ms) (take-Ordered k m.seq ms o.1),
)

pub take-drop : (k : ℕ) (ms : List StreamEvent) → take k ms ++ drop k ms ≡ ms
take-drop zero ms = refl
take-drop (suc k) [] = refl
take-drop (suc k) (m ∷ ms) = ap (λ l. m ∷ l) (take-drop k ms)

pub take_all : (k : ℕ) (ms : List StreamEvent) → length (take k ms) < k → take k ms ≡ ms
take_all zero ms h = absurd (omega (arith, h))
take_all (suc k) [] h = refl
take_all (suc k) (m ∷ ms) h = ap (λ l. m ∷ l) (take_all k ms (omega (arith, h)))

length-drop_le : (k : ℕ) (ms : List StreamEvent) → length (drop k ms) ≤ length ms
length-drop_le zero ms = omega arith
length-drop_le (suc k) [] = omega arith
length-drop_le (suc k) (m ∷ ms) = omega (arith, length-drop_le k ms)

pub length-drop :
    (k : ℕ) (ms : List StreamEvent) → take (suc k) ms ≢ [] → length (drop (suc k) ms) < length ms
length-drop k [] h = absurd (h refl)
length-drop k (m ∷ ms) h = omega (arith, length-drop_le k ms)

pub last_id_seq :
    (n : ℕ) (m : StreamEvent) (ms : List StreamEvent)
    → SeqIds (m ∷ ms)
    → stream_id_seq (last_id (m ∷ ms)) ≡ last_seq_or n (m ∷ ms)
unfolding last_id stream_id_seq
last_id_seq n m [] i = i.0
last_id_seq n m (k ∷ ms) i = last_id_seq m.seq k ms i.1
