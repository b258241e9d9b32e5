-- ===== src/CompactSet/Walk.antt =====
-- `setnext` and `setprev`, the steps of `foreach` over a compact set, and reading by position.
use pawn_x.Prelude.{
  ℕ, ◌+◌, ◌-◌, ◌%◌, ◌≤◌, ◌<◌, ◌≡◌, ◌≢◌, ◌⊎◌, ◌↔◌, inl, inr, true, false, arith, refl, sym, ◌∙◌, ap,
  Bool-cases, tests, dec_lt, leb, ◌&&◌, if◌then◌else◌, ◌==◌,
}
use pawn_x.Prelude.Int.{ℤ, pos, negsuc, ◌≤ℤ◌, ◌<ℤ◌, eq_of_parts, eqb_cases}
use pawn_x.CompactSet.{
  Array, count, found, compact_search, iter_next, iter_prev, iter_get, iter_random, cellmin,
  iter_remove, xorshift,
}
use pawn_x.CompactSet.Search.{Splits, compact_search-Splits, sorted-le}
use pawn_x.CompactSet.Valid.{IsValid}
use pawn_x.CompactSet.Members.{Has}
use pawn_x.CompactSet.Update.{iter_remove-Updates}

-- `r` is the least member above `after`, or the sentinel where there is none.
abbrev pub IsNext : Array → ℤ → ℤ → Type 0
IsNext arr after r =
    ((r ≡ cellmin) × ((w : ℤ) → Has arr w → w ≤ℤ after))
    ⊎ (Has arr r × (after <ℤ r) × ((w : ℤ) → Has arr w → (w ≤ℤ after) ⊎ (r ≤ℤ w)))

-- `r` is the greatest member below `before`, or the sentinel where there is none.
abbrev pub IsPrev : Array → ℤ → ℤ → Type 0
IsPrev arr before r =
    ((r ≡ cellmin) × ((w : ℤ) → Has arr w → before ≤ℤ w))
    ⊎ (Has arr r × (r <ℤ before) × ((w : ℤ) → Has arr w → (before ≤ℤ w) ⊎ (w ≤ℤ r)))

-- The first slot above `after`.
record Above (arr : Array) (after : ℤ) (q : ℕ) : Type 0 where
  low : 1 ≤ q
  under : (i : ℕ) → 1 ≤ i → i < q → i ≤ count arr → arr i ≤ℤ after
  over : (i : ℕ) → q ≤ i → i ≤ count arr → after <ℤ arr i

-- The slot that `setrandom` reads is in use.
slot_bound : (n : ℕ) {c : ℕ} → c ≢ 0 → 1 + n % c ≤ c
slot_bound n h = grind arith

IsNext-unique : (arr : Array) (after r r' : ℤ) → IsNext arr after r → IsNext arr after r' → r ≡ r'
IsNext-unique arr after r r' (inl a) (inl b) = cc (a.0, b.0)
IsNext-unique arr after r r' (inl a) (inr b) = absurd (omega (arith, a.1 r' b.0, b.1))
IsNext-unique arr after r r' (inr a) (inl b) = absurd (omega (arith, b.1 r a.0, a.1))
IsNext-unique arr after r r' (inr a) (inr b) =
    omega (arith, eq_of_parts r r', a.1, b.1, a.2 r' b.0, b.2 r a.0)

-- Where two sets differ in members up to `after` alone, they have the same next member.
IsNext-transfer :
    (arr arr' : Array) (value after r : ℤ)
    → ((w : ℤ) → Has arr' w ↔ (Has arr w × (w ≢ value)))
    → value ≤ℤ after
    → IsNext arr' after r
    → IsNext arr after r
IsNext-transfer arr arr' value after r same h (inl (e, none_above)) = inl (
  e,
  λ w m. elim (eqb_cases w value) [ inl q ↦ rw q h | inr q ↦ none_above w ((same w).1 (m, q)) ],
)
IsNext-transfer arr arr' value after r same h (inr (m, over, least)) = inr (
  ((same r).0 m).0,
  over,
  λ w k. elim (eqb_cases w value) [ inl q ↦ inl (rw q h) | inr q ↦ least w ((same w).1 (k, q)) ],
)

module _ {arr : Array} (v : IsValid arr) where
  Above-found :
      {after : ℤ} {p : ℕ} → Splits arr after p → found arr p after ≡ true → Above arr after (p + 1)
  Above-found {after} {p} s t = record {
    low = omega (arith, s.low);
    under = λ i l h k. ground (arith, s.below i, sorted-le arr after v.sorted i p);
    over = λ i l h. ground (arith, v.sorted p i, s.low);
  }

  Above-missing :
      {after : ℤ} {p : ℕ} → Splits arr after p → found arr p after ≡ false → Above arr after p
  Above-missing {after} {p} s f = record {
    low = s.low;
    under = λ i l h k. omega (arith, s.below i l h);
    over = λ i l h.
        ground
          (arith, s.above p, s.low, sorted-le arr after v.sorted p i, eq_of_parts (arr p) after);
  }

  Above-IsNext :
      {after : ℤ} {q : ℕ}
      → Above arr after q
      → IsNext arr after (if leb q (count arr) then arr q else cellmin)
  Above-IsNext {after} {q} a = elim (Bool-cases (leb q (count arr))) [
    | inl t ↦ rw t (
        inr (
          (q, a.low, omega tests, refl),
          a.over q (omega arith) (omega tests),
          λ w (k, l, h, e). elim (dec_lt k q) [
            | yes b ↦ inl (rw (← e) (a.under k l b h))
            | no b ↦ inr (rw (← e) (sorted-le arr after v.sorted q k a.low (omega arith) h))
          ],
        ))
    | inr f ↦ rw f (inl (refl, λ w (k, l, h, e). rw (← e) (a.under k l (ground arith) h)))
  ]

  -- `setnext` on a valid set returns the least member above the given value, or the sentinel
  -- `cellmin` if no member is above it.
  pub iter_next-IsNext : (after : ℤ) → IsNext arr after (iter_next arr after)
  unfolding iter_next
  iter_next-IsNext after =
      let s : Splits arr after (compact_search arr after) =
        compact_search-Splits arr after v.sorted in
      elim (Bool-cases (found arr (compact_search arr after) after)) [
        | inl t ↦ rw t (Above-IsNext (Above-found s t))
        | inr f ↦ rw f (Above-IsNext (Above-missing s f))
      ]

  -- `setprev` on a valid set returns the greatest member below the given value, or the sentinel
  -- `cellmin` if no member is below it.
  pub iter_prev-IsPrev : (before : ℤ) → IsPrev arr before (iter_prev arr before)
  unfolding iter_prev
  iter_prev-IsPrev before =
      let p = compact_search arr before in
      let s : Splits arr before p = compact_search-Splits arr before v.sorted in
      elim (Bool-cases (leb 1 (p - 1) && leb (p - 1) (count arr))) [
        | inl t ↦ rw t (
            inr (
              (p - 1, ground arith, ground arith, refl),
              s.below (p - 1) (ground arith) (ground arith),
              λ w (k, l, h, e). elim (dec_lt k p) [
                | yes b ↦ inr (
                    rw (← e)
                      (sorted-le arr before v.sorted k (p - 1) l (omega arith) (ground arith)))
                | no b ↦ inl (rw (← e) (s.above k (omega arith) h))
              ],
            ))
        | inr f ↦
            rw f
              (inl (refl, λ w (k, l, h, e). rw (← e) (s.above k (ground (arith, s.high, s.low)) h)))
      ]

  get_out : (i : ℤ) → ((i <ℤ pos 0) ⊎ (arr 0 ≤ℤ i)) → iter_get arr i ≡ negsuc 0
  unfolding iter_get
  get_out i h = ground (arith, v.counted)

  -- `setget` at a position that is in use.
  get_in : (i : ℕ) → i < count arr → iter_get arr (pos i) ≡ arr (1 + i)
  unfolding iter_get
  get_in i h = ground (arith, v.counted)

  -- `setget` on a valid set lists the members in ascending order: the numbers at the positions below
  -- the count are the members, a later position has a greater one, and every other position, the
  -- negative ones included, gives -1.
  pub iter_get-Has :
      ((w : ℤ) → Has arr w ↔ ((i : ℕ) × (i < count arr) × (iter_get arr (pos i) ≡ w)))
      × (((i j : ℕ) → i < j → j < count arr → iter_get arr (pos i) <ℤ iter_get arr (pos j))
          × ((i : ℤ) → ((i <ℤ pos 0) ⊎ (arr 0 ≤ℤ i)) → iter_get arr i ≡ negsuc 0))
  iter_get-Has = (
    λ w. (
      λ (k, l, h, e).
          let back : 1 + (k - 1) ≡ k = omega arith in
          (k - 1, omega arith, get_in (k - 1) (omega arith) ∙ (ap arr back ∙ e)),
      λ (i, h, e). (1 + i, omega arith, omega arith, sym (get_in i h) ∙ e),
    ),
    (
      λ i j h k.
          rw (get_in i (omega arith), get_in j k)
            (v.sorted (1 + i) (1 + j) (omega arith) (omega arith) (omega arith)),
      λ i h. get_out i h,
    ),
  )

  -- `setrandom` returns a member of a set that is not empty, whatever the seed, and -1 with the seed
  -- as it was for an empty one.
  pub iter_random-Has :
      (w seed : ℕ)
      → ((1 ≤ count arr) × Has arr (iter_random w seed arr).0)
        ⊎ ((count arr ≡ 0) × (iter_random w seed arr ≡ (negsuc 0, seed)))
  unfolding iter_random
  iter_random-Has w seed = elim (Bool-cases (count arr == 0)) [
    | inl t ↦ inr (ground arith, rw t)
    | inr f ↦ rw f (
        inl (
          ground arith,
          (
            1 + xorshift w seed % count arr,
            omega arith,
            slot_bound (xorshift w seed) (ground arith),
            refl,
          ),
        ))
  ]

-- Removing members at or below the given value does not change what `setnext` returns: a
-- `foreach` may remove the member that it has reached.
pub iter_next-iter_remove :
    {arr : Array} (value after : ℤ)
    → IsValid arr
    → value ≤ℤ after
    → iter_next (iter_remove arr value).1 after ≡ iter_next arr after
iter_next-iter_remove {arr} value after v h =
    let u = iter_remove-Updates value v in
    IsNext-unique arr after _ _
      (IsNext-transfer arr (iter_remove arr value).1 value after _ u.members h
        (iter_next-IsNext u.valid after))
      (iter_next-IsNext v after)
