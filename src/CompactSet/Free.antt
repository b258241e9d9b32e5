-- ===== src/CompactSet/Free.antt =====
-- `setfree` and `setalloc` of itercore.c.
use pawn_x.Prelude.{
  ℕ, zero, suc, ◌+◌, ◌-◌, ◌≤◌, ◌<◌, ◌≡◌, ◌≢◌, dec_lt, inl, inr, false, arith, refl, Bool-cases,
}
use pawn_x.Prelude.Int.{ℤ, pos, eqb_ℤ, ltb_ℤ, ◌≤ℤ◌, eq_of_parts}
use pawn_x.CompactSet.{
  Array, count, gap_from, insert_at, compact_search, iter_free, iter_add, iter_alloc,
}
use pawn_x.CompactSet.Search.{Splits, compact_search-Splits, sorted-le}
use pawn_x.CompactSet.Valid.{IsValid, Gap}
use pawn_x.CompactSet.Members.{Has, found_cases}

-- The loop has passed the slots that hold 0, 1, …, `e - 1`, and stopped at the first that does not
-- hold its number, or past the last.
record Stops (arr : Array) (k e : ℕ) : Type 0 where
  slot : k ≡ e + 1
  last : e ≤ count arr
  dense : (i : ℕ) → i < e → arr (i + 1) ≡ pos i
  gap : e < count arr → arr k ≢ pos e

gap_from-Stops :
    (n e : ℕ) (arr : Array)
    → e + n ≡ count arr
    → ((i : ℕ) → i < e → arr (i + 1) ≡ pos i)
    → Stops arr (gap_from n arr (e + 1) e).0 (gap_from n arr (e + 1) e).1
unfolding gap_from
gap_from-Stops zero e arr h d = record {
  slot = refl;
  last = omega arith;
  dense = d;
  gap = λ l. absurd (omega arith);
}
gap_from-Stops (suc n) e arr h d = elim (Bool-cases (eqb_ℤ (arr (e + 1)) (pos e))) [
  | inl t ↦ rw t (
      gap_from-Stops n (e + 1) arr (omega arith) (λ i l. elim (dec_lt i e) [
        | yes q ↦ d i q
        | no q ↦
            let same : i ≡ e = omega arith in
            rw same (eq_of_parts (arr (e + 1)) (pos e) (ground arith))
      ]))
  | inr f ↦ rw f (record { slot = refl; last = omega arith; dense = d; gap = λ l q. ground arith })
]

-- The first gap of a valid set, as `setfree` and `setalloc` look for it.
abbrev free_slot : Array → ℕ × ℕ
free_slot arr = gap_from (count arr) arr 1 0

module _ {arr : Array} (v : IsValid arr) where
  free_slot-Stops : Stops arr (free_slot arr).0 (free_slot arr).1
  free_slot-Stops = gap_from-Stops (count arr) 0 arr (omega arith) (λ i h. absurd (omega arith))

  Stops-Gap : {k e : ℕ} → Stops arr k e → Gap arr (pos e) k
  Stops-Gap {k} {e} s = record {
    low = omega (arith, s.slot);
    high = omega (arith, s.slot, s.last);
    below = λ i l h. ground (arith, s.slot, s.dense (i - 1));
    above = λ i l h. ground (
      arith,
      s.slot,
      s.dense (e - 1),
      s.gap,
      v.nonneg k,
      v.sorted e k,
      sorted-le arr (pos e) v.sorted k i,
      eq_of_parts (arr k) (pos e),
    );
  }

  Gap-Has : {value : ℤ} {p : ℕ} → Gap arr value p → ¬ (Has arr value)
  Gap-Has {value} {p} g (k, l, h, e) = ground (arith, g.below k, g.above k)

  -- The search for a value that is missing comes to the slot where it belongs.
  compact_search-Gap : {value : ℤ} {p : ℕ} → Gap arr value p → compact_search arr value ≡ p
  compact_search-Gap {value} {p} g =
      let s : Splits arr value (compact_search arr value) =
        compact_search-Splits arr value v.sorted in
      ground (
        arith,
        s.low,
        s.high,
        g.low,
        g.high,
        s.above (compact_search arr value),
        s.below p,
        g.above p,
        g.below (compact_search arr value),
      )

  iter_add-Gap :
      {value : ℤ} {p : ℕ}
      → pos 0 ≤ℤ value
      → Gap arr value p
      → iter_add arr value ≡ (pos 1, insert_at p value arr)
  unfolding iter_add
  iter_add-Gap {value} {p} nn g = elim (found_cases v value) [
    | inl t ↦ absurd (Gap-Has g t.1)
    | inr f ↦
        let ne : ltb_ℤ value (pos 0) ≡ false = ground arith in rw (ne, f.0, compact_search-Gap g)
  ]

  -- `setfree` on a valid set returns the smallest number from 0 up that is not a member.
  pub iter_free_lem :
      (n : ℕ) × (iter_free arr ≡ pos n)
      × (¬ (Has arr (pos n)))
      × ((m : ℕ) → m < n → Has arr (pos m))
  unfolding iter_free
  iter_free_lem =
      let s : Stops arr (free_slot arr).0 (free_slot arr).1 = free_slot-Stops in
      (
        (free_slot arr).1,
        refl,
        Gap-Has (Stops-Gap s),
        λ m h. (m + 1, omega arith, omega (arith, s.last), s.dense m h),
      )

  -- `setalloc` on a valid set returns what `setfree` returns, and leaves the array that `setadd` of
  -- that number leaves.
  pub iter_alloc-iter_add : iter_alloc arr ≡ (iter_free arr, (iter_add arr (iter_free arr)).1)
  unfolding iter_alloc iter_free
  iter_alloc-iter_add =
      let g : Gap arr (pos (free_slot arr).1) (free_slot arr).0 = Stops-Gap free_slot-Stops in
      rw (iter_add-Gap (omega arith) g)
