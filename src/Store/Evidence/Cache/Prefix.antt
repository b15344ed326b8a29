-- ===== src/Store/Evidence/Cache/Prefix.antt =====
-- The rows that a cache speaks of, in a later table.
use mathlib.Core.Path.{subst}
use live_auction_system.Prelude.{
  ℕ, suc, ◌+◌, ◌-◌, ◌<◌, ◌≤◌, ◌≡◌, ◌⊎◌, inl, inr, ◌∙◌, ap, refl, sym, true, List, [], ◌∷◌, ◌++◌,
  Option, some, length, arith,
}
use live_auction_system.Store.Evidence.{EventRow, MacInput, find_row, verify_rows, string_of}
use live_auction_system.Store.Evidence.Chain.{Chained, head_of, check_row-passes}
use live_auction_system.Store.Evidence.Cache.{
  StoredRow, rows_of, rows_from, prefix_count, none_changed, keys_known,
}

-- Rows in the order of their key, from `e` on.
abbrev pub Ascending : ℕ → List StoredRow → Type 0
Ascending e [] = Unit {0}
Ascending e (r ∷ rows) = (e ≤ r.row.seq) × Ascending (suc r.row.seq) rows

-- A row whose `updated_at` is before the time was in the old table as it is.
abbrev pub Kept : ℕ → List EventRow → List StoredRow → Type 0
Kept at old [] = Unit {0}
Kept at old (r ∷ rows) =
    (r.updated_at < at → find_row r.row.seq old ≡ some r.row) × Kept at old rows

abbrev pub Numbered : ℕ → List EventRow → Type 0
Numbered e [] = Unit {0}
Numbered e (r ∷ rows) = (r.seq ≡ e) × Numbered (suc e) rows

rows_from_all : (e : ℕ) (rows : List StoredRow) → Ascending e rows → rows_from e rows ≡ rows_of rows
unfolding rows_from
rows_from_all e rows a = go e e rows a (omega arith)
  where
    go :
        (e k : ℕ) (rows : List StoredRow)
        → Ascending k rows
        → e ≤ k
        → rows_from e rows ≡ rows_of rows
    go e k [] a h = refl
    go e k (r ∷ rows) a h = ground (arith, a.0, h, go e (suc r.row.seq) rows a.1)

count_bound : (n e : ℕ) (rows : List StoredRow) → Ascending e rows → prefix_count n rows ≤ suc n - e
unfolding prefix_count
count_bound n e [] a = omega arith
count_bound n e (r ∷ rows) a = ground (arith, a.0, count_bound n (suc r.row.seq) rows a.1)

-- Without its first row, the old table still has the rows after it.
Kept-tail :
    (at e : ℕ) (o : EventRow) (old : List EventRow) (rows : List StoredRow)
    → o.seq < e
    → Ascending e rows
    → Kept at (o ∷ old) rows
    → Kept at old rows
unfolding find_row
Kept-tail at e o old [] h a k = tt
Kept-tail at e o old (r ∷ rows) h a k = (
  λ early. ground (arith, h, a.0, k.0 early),
  Kept-tail at (suc r.row.seq) o old rows (omega (arith, h, a.0)) a.1 k.1,
)

key-cases : (e k : ℕ) → e ≤ k → (k ≡ e) ⊎ (e < k)
key-cases e k h = ground (arith, h)

module _ (at n : ℕ) (r : StoredRow) (rows : List StoredRow) (known : r.row.seq ≤ n) where
  count_rest : (k : ℕ) → prefix_count n (r ∷ rows) ≡ suc k → prefix_count n rows ≡ k
  unfolding prefix_count
  count_rest k h = ground (arith, known, h)

  changed_rest :
      none_changed at n (r ∷ rows) ≡ true → (r.updated_at < at) × (none_changed at n rows ≡ true)
  unfolding none_changed
  changed_rest h = ground (arith, known, h)

  from_rest : rows_from (suc n) (r ∷ rows) ≡ rows_from (suc n) rows
  unfolding rows_from
  from_rest = ground (arith, known)

found_first :
    (o : EventRow) (old : List EventRow) (row : EventRow)
    → row.seq ≡ o.seq
    → find_row row.seq (o ∷ old) ≡ some row
    → row ≡ o
unfolding find_row
found_first o old row h f = ground (arith, h, f)

prefix_absent : {A : Type 0} (n k : ℕ) → prefix_count n [] ≡ suc k → A
unfolding prefix_count
prefix_absent n k h = absurd (omega (arith, h))

-- If a table has as many rows up to `n` as the old one, and none of them has changed, then they are
-- the old ones.
pub prefix_same :
    (at n e : ℕ) (old : List EventRow) (rows : List StoredRow)
    → Numbered e old
    → Ascending e rows
    → Kept at old rows
    → suc n ≡ e + length old
    → prefix_count n rows ≡ length old
    → none_changed at n rows ≡ true
    → rows_of rows ≡ old ++ rows_from (suc n) rows
prefix_same at n e [] rows num a k size count same =
    sym
      (subst (λ f. rows_from f rows ≡ rows_of rows) (omega (arith, size)) (rows_from_all e rows a))
prefix_same at n e (o ∷ old) [] num a k size count same = prefix_absent n (length old) count
prefix_same at n e (o ∷ old) (r ∷ rows) num a k size count same = elim (key-cases e r.row.seq a.0) [
  | inr above ↦ absurd (
      omega
        (arith, size, count, above, count_bound n (suc e) (r ∷ rows) (omega (arith, above), a.1)))
  | inl first ↦
      let known : r.row.seq ≤ n = omega (arith, first, size) in
      let (early, same') = changed_rest at n r rows known same in
      let a' : Ascending (suc e) rows = subst (λ f. Ascending (suc f) rows) first a.1 in
      let k' = Kept-tail at (suc e) o old rows (omega (arith, num.0)) a' k.1 in
      let ih =
        prefix_same at n (suc e) old rows num.1 a' k' (omega (arith, size))
          (count_rest at n r rows known (length old) count) same' in
      let row = found_first o old r.row (first ∙ sym num.0) (k.0 early) in
      ap (λ x. x ∷ rows_of rows) row
      ∙ ap (λ l. o ∷ l) (ih ∙ ap (λ l. old ++ l) (sym (from_rest at n r rows known)))
]

module _ (mac : MacInput → ℕ) (evidence_key : ℕ → Option ℕ) where
  pub Numbered-of_Chained :
      (e p : ℕ) (old : List EventRow) → Chained mac evidence_key e p old → Numbered e old
  Numbered-of_Chained e p [] c = tt
  Numbered-of_Chained e p (r ∷ old) c =
      (c.0, Numbered-of_Chained (suc e) (string_of r.event_hash) old c.3)

  -- A pass over chained rows goes on from their head.
  pub verify_rows-append :
      (e p : ℕ) (old rest : List EventRow)
      → Chained mac evidence_key e p old
      → verify_rows mac evidence_key e p (old ++ rest)
        ≡ verify_rows mac evidence_key (e + length old) (head_of mac evidence_key p old) rest
  unfolding verify_rows
  verify_rows-append e p [] rest c = ap (λ k. verify_rows mac evidence_key k p rest) (omega arith)
  verify_rows-append e p (r ∷ old) rest c =
      let ih = verify_rows-append (suc e) (string_of r.event_hash) old rest c.3 in
      let passed = check_row-passes mac evidence_key e p r c.0 c.1 c.2 in
      rw (passed, verify_rows)
        (ap (λ k. verify_rows mac evidence_key (suc k) (string_of r.event_hash) (old ++ rest)) c.0
          ∙ ih
          ∙ ap
              (λ k.
                verify_rows mac evidence_key k
                  (head_of mac evidence_key (string_of r.event_hash) old) rest)
              (omega arith))

  -- In a chained table every key is known.
  pub keys_known-Chained :
      (seq e p : ℕ) (rows : List StoredRow)
      → Chained mac evidence_key e p (rows_of rows)
      → keys_known mac evidence_key seq rows ≡ true
  unfolding keys_known
  keys_known-Chained seq e p [] c = refl
  keys_known-Chained seq e p (r ∷ rows) c =
      let (key, known, _) = c.2 in
      ground (arith, known, keys_known-Chained seq (suc e) (string_of r.row.event_hash) rows c.3)
