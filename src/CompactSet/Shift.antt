-- ===== src/CompactSet/Shift.antt =====
-- The loops that move the tail of the array, in closed form: what every slot holds afterwards.
use pawn_x.Prelude.{ℕ, zero, suc, ◌+◌, ◌-◌, ◌≤◌, ◌≡◌, ◌&&◌, leb, ltb, ◌==◌, if◌then◌else◌, arith}
use pawn_x.Prelude.Int.{ℤ, pos, ◌+ℤ◌, ◌-ℤ◌}
use pawn_x.CompactSet.{Array, count, write, shift_up, shift_down, insert_at, remove_at}

-- With `n ≤ i` rounds from slot `i` down, slots `i - n + 2 .. i + 1` hold their lower neighbours.
pub shift_up_lem :
    (n i : ℕ) (arr : Array) (j : ℕ)
    → n ≤ i
    → shift_up n i arr j ≡ (if ltb (i + 1 - n) j && leb j (i + 1) then arr (j - 1) else arr j)
unfolding shift_up
shift_up_lem zero i arr j h = ground arith
shift_up_lem (suc n) i arr j h =
    ground (arith, shift_up_lem n (i - 1) (write arr (i + 1) (arr i)) j)

-- With `n` rounds from slot `p` up, slots `p .. p + n - 1` hold their upper neighbours.
pub shift_down_lem :
    (n p : ℕ) (arr : Array) (j : ℕ)
    → shift_down n p arr j ≡ (if leb p j && ltb j (p + n) then arr (j + 1) else arr j)
unfolding shift_down
shift_down_lem zero p arr j = ground arith
shift_down_lem (suc n) p arr j =
    ground (arith, shift_down_lem n (p + 1) (write arr p (arr (p + 1))) j)

-- Every slot after an insertion at `p`.
pub insert_at_lem :
    (p : ℕ) (value : ℤ) (arr : Array) (j : ℕ)
    → 1 ≤ p
    → p ≤ count arr + 1
    → insert_at p value arr j ≡ (
        if j == 0
        then arr 0 +ℤ pos 1
        else if j == p
        then value
        else if ltb p j && leb j (count arr + 1)
        then arr (j - 1)
        else arr j)
unfolding insert_at
insert_at_lem p value arr j l h = ground (arith, shift_up_lem (count arr + 1 - p) (count arr) arr j)

-- Every slot after a removal at `p`.
pub remove_at_lem :
    (p : ℕ) (arr : Array) (j : ℕ)
    → p ≤ count arr
    → remove_at p arr j ≡ (
        if j == 0
        then arr 0 -ℤ pos 1
        else if leb p j && ltb j (count arr)
        then arr (j + 1)
        else arr j)
unfolding remove_at
remove_at_lem p arr j h = ground (arith, shift_down_lem (count arr - p) p arr j)
