-- ===== src/CompactSet/Search.antt =====
-- The binary search `compact_search` of itercore.c.
use pawn_x.Prelude.{
  ℕ, zero, suc, ◌+◌, ◌-◌, ◌/◌, ◌≤◌, ◌<◌, ◌≡◌, inl, inr, arith, leb, Bool-cases, dec_lt, tests,
}
use pawn_x.Prelude.Int.{ℤ, ◌≤ℤ◌, ◌<ℤ◌, ltb_ℤ}
use pawn_x.CompactSet.{Array, count, search_from, compact_search}

-- The members stand in strictly ascending order.
abbrev pub IsSorted : Array → Type 0
IsSorted arr = (i j : ℕ) → 1 ≤ i → i < j → j ≤ count arr → arr i <ℤ arr j

-- `p` separates the members below `value` from the others.
pub record Splits (arr : Array) (value : ℤ) (p : ℕ) : Type 0 where
  pub low : 1 ≤ p
  pub high : p ≤ count arr + 1
  pub below : (i : ℕ) → 1 ≤ i → i < p → arr i <ℤ value
  pub above : (i : ℕ) → p ≤ i → i ≤ count arr → value ≤ℤ arr i

module _ (arr : Array) (value : ℤ) (sorted : IsSorted arr) where
  pub sorted-le : (i j : ℕ) → 1 ≤ i → i ≤ j → j ≤ count arr → arr i ≤ℤ arr j
  sorted-le i j l le h = elim (dec_lt i j) [
    | yes p ↦ omega (arith, sorted i j l p h)
    | no p ↦ let e : i ≡ j = omega arith in rw e (omega arith)
  ]

  search_from-Splits :
      (rounds lo hi : ℕ)
      → hi + 1 - lo < rounds
      → 1 ≤ lo
      → lo ≤ hi + 1
      → hi ≤ count arr
      → ((i : ℕ) → 1 ≤ i → i < lo → arr i <ℤ value)
      → ((i : ℕ) → hi < i → i ≤ count arr → value <ℤ arr i)
      → Splits arr value (search_from rounds arr value lo hi)
  unfolding search_from
  search_from-Splits zero lo hi r l m h b a = absurd (omega arith)
  search_from-Splits (suc rounds) lo hi r l m h b a = elim (Bool-cases (leb lo hi)) [
    | inr stop ↦ rw stop (record {
      low = l;
      high = omega arith;
      below = b;
      above = λ i p q. omega (tests, a i (ground arith) q);
    })
    | inl go ↦ elim (Bool-cases (ltb_ℤ (arr ((lo + hi) / 2)) value)) [
      | inl lt ↦
          rw (go, lt)
            (search_from-Splits rounds ((lo + hi) / 2 + 1) hi (omega tests) (omega arith)
              (omega tests) h
              (λ i p q. omega (tests, sorted-le i ((lo + hi) / 2) p (omega arith) (omega tests))) a)
      | inr ge ↦ elim (Bool-cases (ltb_ℤ value (arr ((lo + hi) / 2)))) [
        | inl gt ↦
            rw (go, ge, gt)
              (search_from-Splits rounds lo ((lo + hi) / 2 - 1) (omega tests) l (omega tests)
                (omega tests) b
                (λ i p q. omega (tests, sorted-le ((lo + hi) / 2) i (omega tests) (omega arith) q)))
        | inr eq ↦
            let eqv : (arr ((lo + hi) / 2) ≤ℤ value) × (value ≤ℤ arr ((lo + hi) / 2)) =
              ground arith in
            rw (go, ge, eq)
              (record {
                low = omega tests;
                high = omega tests;
                below = λ i p q.
                    omega (tests, eqv.0, eqv.1, sorted i ((lo + hi) / 2) p q (omega tests));
                above = λ i p q.
                    omega (tests, eqv.0, eqv.1, sorted-le ((lo + hi) / 2) i (omega tests) p q);
              })
      ]
    ]
  ]

  -- In a sorted array `compact_search` returns the slot that separates the members below `value`
  -- from the others: between 1 and `count + 1`, every earlier member is below `value` and no other
  -- member is.
  pub compact_search-Splits : Splits arr value (compact_search arr value)
  unfolding compact_search
  compact_search-Splits =
      search_from-Splits (count arr + 1) 1 (count arr) (omega arith) (omega arith) (omega arith)
        (omega arith) (λ i p q. absurd (omega arith)) (λ i p q. absurd (omega arith))
