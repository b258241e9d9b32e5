-- ===== src/CompactSet/Members.antt =====
-- Membership in a compact set, and what an insertion and a removal do to it.
use pawn_x.Prelude.{
  ℕ, ◌+◌, ◌-◌, ◌≤◌, ◌≡◌, ◌≢◌, ◌↔◌, ◌⊎◌, inl, inr, true, false, arith, Bool-cases, dec_lt,
  ℕ_discrete, ap,
}
use pawn_x.Prelude.Int.{ℤ, eq_of_parts}
use pawn_x.CompactSet.{Array, count, found, compact_search, insert_at, remove_at}
use pawn_x.CompactSet.Search.{Splits, sorted-le, compact_search-Splits}
use pawn_x.CompactSet.Shift.{insert_at_lem, remove_at_lem}
use pawn_x.CompactSet.Valid.{IsValid, Gap, insert_at_zero, remove_at_zero}

-- `value` is one of `arr[1 .. count]`.
abbrev pub Has : Array → ℤ → Type 0
Has arr value = (k : ℕ) × (1 ≤ k) × (k ≤ count arr) × (arr k ≡ value)

back : (k : ℕ) → k + 1 - 1 ≡ k
back k = omega arith

module _ {arr : Array} (v : IsValid arr) where
  pub not_found-Has :
      {value : ℤ} {p : ℕ} → Splits arr value p → found arr p value ≡ false → ¬ (Has arr value)
  not_found-Has {value} {p} s f (k, l, h, e) = ground (
    arith,
    s.below k,
    s.above p,
    s.low,
    sorted-le arr value v.sorted p k,
    eq_of_parts (arr p) value,
  )

  -- The test that every operation makes on the slot that it found decides membership.
  pub found_cases :
      (value : ℤ)
      → (found arr (compact_search arr value) value ≡ true) × Has arr value
        ⊎ (found arr (compact_search arr value) value ≡ false) × (¬ (Has arr value))
  found_cases value =
      let p = compact_search arr value in
      let s : Splits arr value p = compact_search-Splits arr value v.sorted in
      elim (Bool-cases (found arr p value)) [
        | inl t ↦ inl (t, (p, s.low, ground arith, eq_of_parts (arr p) value (ground arith)))
        | inr f ↦ inr (f, not_found-Has s f)
      ]

  -- An insertion adds its value and keeps the other members.
  pub Has-insert_at :
      {value : ℤ} {p : ℕ} (w : ℤ)
      → Gap arr value p
      → Has (insert_at p value arr) w ↔ (Has arr w ⊎ (w ≡ value))
  Has-insert_at {value} {p} w g = (to, from)
    where
      to : Has (insert_at p value arr) w → Has arr w ⊎ (w ≡ value)
      to (k, l, h, e) = elim (dec_lt k p) [
        | yes q ↦
            inl (
              k,
              l,
              ground (arith, g.high),
              ground (arith, insert_at_lem p value arr k g.low g.high),
            )
        | no q ↦ elim (ℕ_discrete k p) [
          | yes q' ↦ inr (ground (arith, insert_at_lem p value arr k g.low g.high))
          | no q' ↦ inl (
            k - 1,
            ground (arith, g.low),
            ground (arith, insert_at_zero v p value),
            ground (arith, insert_at_lem p value arr k g.low g.high, insert_at_zero v p value),
          )
        ]
      ]

      from : Has arr w ⊎ (w ≡ value) → Has (insert_at p value arr) w
      from (inl (k, l, h, e)) = elim (dec_lt k p) [
        | yes q ↦ (
          k,
          l,
          ground (arith, insert_at_zero v p value),
          ground (arith, insert_at_lem p value arr k g.low g.high),
        )
        | no q ↦ (
          k + 1,
          ground arith,
          ground (arith, insert_at_zero v p value),
          rw (insert_at_lem p value arr (k + 1) g.low g.high) (ground (arith, ap arr (back k))),
        )
      ]
      from (inr e) = (
        p,
        g.low,
        ground (arith, insert_at_zero v p value, g.high),
        ground (arith, insert_at_lem p value arr p g.low g.high, g.low),
      )

  -- A removal takes away the value of its slot and keeps the other members.
  pub Has-remove_at :
      {p : ℕ} (w : ℤ) → 1 ≤ p → p ≤ count arr → Has (remove_at p arr) w ↔ (Has arr w × (w ≢ arr p))
  Has-remove_at {p} w l h = (to, from)
    where
      none_left : count (remove_at p arr) ≡ count arr - 1
      none_left = ground (arith, remove_at_zero v p (omega arith))

      to : Has (remove_at p arr) w → Has arr w × (w ≢ arr p)
      to (k, l', h', e) = elim (dec_lt k p) [
        | yes q ↦ (
          (k, l', omega arith, ground (arith, remove_at_lem p arr k h)),
          ground (arith, remove_at_lem p arr k h, v.sorted k p l' q h),
        )
        | no q ↦ (
          (
            k + 1,
            omega arith,
            omega (arith, none_left),
            ground (arith, remove_at_lem p arr k h, none_left),
          ),
          ground (
            arith,
            remove_at_lem p arr k h,
            v.sorted p (k + 1) l (omega arith) (omega (arith, none_left)),
            none_left,
          ),
        )
      ]

      from : Has arr w × (w ≢ arr p) → Has (remove_at p arr) w
      from ((k, l', h', e), ne) = elim (dec_lt k p) [
        | yes q ↦ (k, l', omega (arith, none_left), ground (arith, remove_at_lem p arr k h))
        | no q ↦ (
          k - 1,
          ground arith,
          ground (arith, none_left),
          ground (arith, remove_at_lem p arr (k - 1) h),
        )
      ]
