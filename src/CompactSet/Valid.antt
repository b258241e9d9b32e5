-- ===== src/CompactSet/Valid.antt =====
-- The invariant of a compact set (I1 to I3 of itercore.c, with the rule that members are not
-- negative), and the lemmas on insertion and removal.
use pawn_x.Prelude.{ℕ, ◌+◌, ◌-◌, ◌≤◌, ◌<◌, ◌≡◌, false, arith}
use pawn_x.Prelude.Int.{ℤ, pos, ◌+ℤ◌, ◌-ℤ◌, ◌≤ℤ◌, ◌<ℤ◌, eq_of_parts}
use pawn_x.CompactSet.{Array, count, found, insert_at, remove_at}
use pawn_x.CompactSet.Search.{IsSorted, Splits, sorted-le}
use pawn_x.CompactSet.Shift.{insert_at_lem, remove_at_lem}

pub record IsValid (arr : Array) : Type 0 where
  pub counted : arr 0 ≡ pos (count arr)
  pub sorted : IsSorted arr
  pub nonneg : (i : ℕ) → 1 ≤ i → i ≤ count arr → pos 0 ≤ℤ arr i

-- Slot `p` is where `value`, which is not a member, belongs.
pub record Gap (arr : Array) (value : ℤ) (p : ℕ) : Type 0 where
  pub low : 1 ≤ p
  pub high : p ≤ count arr + 1
  pub below : (i : ℕ) → 1 ≤ i → i < p → arr i <ℤ value
  pub above : (i : ℕ) → p ≤ i → i ≤ count arr → value <ℤ arr i

module _ {arr : Array} (v : IsValid arr) where
  pub Splits-Gap :
      {value : ℤ} {p : ℕ} → Splits arr value p → found arr p value ≡ false → Gap arr value p
  Splits-Gap {value} {p} s f = record {
    low = s.low;
    high = s.high;
    below = s.below;
    above = λ i l h.
        ground
          (arith, s.above p, s.low, eq_of_parts (arr p) value, sorted-le arr value v.sorted p i);
  }

  pub insert_at_zero : (p : ℕ) (value : ℤ) → insert_at p value arr 0 ≡ pos (count arr + 1)
  unfolding insert_at ◌+ℤ◌
  insert_at_zero p value = ground (arith, v.counted)

  pub remove_at_zero : (p : ℕ) → 1 ≤ count arr → remove_at p arr 0 ≡ pos (count arr - 1)
  unfolding remove_at ◌-ℤ◌
  remove_at_zero p h = ground (arith, v.counted)

  pub insert_at-IsValid :
      {value : ℤ} {p : ℕ} → pos 0 ≤ℤ value → Gap arr value p → IsValid (insert_at p value arr)
  insert_at-IsValid {value} {p} nn g = record {
    counted = rw (insert_at_zero p value);
    sorted = λ i j l h k.
        rw (insert_at_lem p value arr i g.low g.high, insert_at_lem p value arr j g.low g.high)
          (ground (
            arith,
            insert_at_zero p value,
            g.low,
            g.high,
            v.sorted i j,
            v.sorted i (j - 1),
            v.sorted (i - 1) (j - 1),
            g.below i,
            g.above (j - 1),
          ));
    nonneg = λ i l h.
        rw (insert_at_lem p value arr i g.low g.high)
          (ground (arith, insert_at_zero p value, g.low, g.high, v.nonneg i, v.nonneg (i - 1)));
  }

  pub remove_at-IsValid : {p : ℕ} → 1 ≤ p → p ≤ count arr → IsValid (remove_at p arr)
  remove_at-IsValid {p} l h = record {
    counted = rw (remove_at_zero p (omega arith));
    sorted = λ i j li lt k.
        rw (remove_at_lem p arr i h, remove_at_lem p arr j h)
          (ground (
            arith,
            remove_at_zero p (omega arith),
            v.sorted i j,
            v.sorted i (j + 1),
            v.sorted (i + 1) (j + 1),
          ));
    nonneg = λ i li k.
        rw (remove_at_lem p arr i h)
          (ground (arith, remove_at_zero p (omega arith), v.nonneg i, v.nonneg (i + 1)));
  }
