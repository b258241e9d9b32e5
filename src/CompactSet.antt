-- ===== src/CompactSet.antt =====
-- The compact-set natives of compiler/source/amx/itercore.c: a sorted set of cells kept in a plain
-- script array. `arr[0]` is the count, `arr[1 .. count]` the members, strictly ascending.
--
-- A native is given a bare pointer, so the array is a function from slots to cells: a slot out of
-- the script's array is a slot like any other, and the theorems say which slots are written. A
-- cell is a signed integer. The count and the slots are `int`s; they are natural numbers here,
-- since no script array has 2^31 slots. `amx_GetAddr` has resolved the address already.
pub mod Search
pub mod Shift
pub mod Valid
pub mod Members
pub mod Update
pub mod Free
pub mod Walk
mod Tests
use pawn_x.Prelude.{
  ℕ, zero, suc, ◌+◌, ◌-◌, ◌*◌, ◌/◌, ◌%◌, ◌^◌, Bool, ◌&&◌, ◌||◌, leb, ◌==◌, if◌then◌else◌,
}
use Prim.Native.Nat.{bit_xor}
use pawn_x.Prelude.Int.{ℤ, pos, negsuc, pos_part, ltb_ℤ, eqb_ℤ, ◌+ℤ◌, ◌-ℤ◌}

abbrev pub Array : Type 0
Array = ℕ → ℤ

-- `arr[i] = v`
abbrev pub write : Array → ℕ → ℤ → Array
write arr i v j = if j == i then v else arr j

-- `(int)arr[0]`
abbrev pub count : Array → ℕ
count arr = pos_part (arr 0)

-- The loop of `compact_search` on `lo` and `hi`; the first argument bounds its rounds.
pub search_from : ℕ → Array → ℤ → ℕ → ℕ → ℕ
search_from zero arr value lo hi = lo
search_from (suc rounds) arr value lo hi =
    let mid = (lo + hi) / 2 in
    let right = search_from rounds arr value (mid + 1) hi in
    let left = search_from rounds arr value lo (mid - 1) in
    if leb lo hi
    then if ltb_ℤ (arr mid) value then right else if ltb_ℤ value (arr mid) then left else mid
    else lo

-- Each round leaves fewer slots between `lo` and `hi`, so as many rounds as there are slots do.
pub compact_search : Array → ℤ → ℕ
compact_search arr value = search_from (count arr + 1) arr value 1 (count arr)

-- The first loop of `setfree` and `setalloc`, from slot `k` at the expected value `e`, with as many
-- rounds as slots are left: the slot where it stops, and the value that it expected there.
pub gap_from : ℕ → Array → ℕ → ℕ → ℕ × ℕ
gap_from zero arr k e = (k, e)
gap_from (suc rounds) arr k e =
    let rest = gap_from rounds arr (k + 1) (e + 1) in if eqb_ℤ (arr k) (pos e) then rest else (k, e)

-- `while (i >= pos) { arr[i+1] = arr[i]; i--; }`, with `i + 1 - pos` rounds.
pub shift_up : ℕ → ℕ → Array → Array
shift_up zero i arr = arr
shift_up (suc rounds) i arr = shift_up rounds (i - 1) (write arr (i + 1) (arr i))

-- `while (pos < count) { arr[pos] = arr[pos+1]; pos++; }`, with `count - pos` rounds.
pub shift_down : ℕ → ℕ → Array → Array
shift_down zero p arr = arr
shift_down (suc rounds) p arr = shift_down rounds (p + 1) (write arr p (arr (p + 1)))

-- What is left of `setadd` and `setalloc` when the slot is known.
pub insert_at : ℕ → ℤ → Array → Array
unfolding shift_up
insert_at p value arr =
    write (write (shift_up (count arr + 1 - p) (count arr) arr) p value) 0 (arr 0 +ℤ pos 1)

-- What is left of `setremove`: `count` is read before the shift.
pub remove_at : ℕ → Array → Array
unfolding shift_down
remove_at p arr = write (shift_down (count arr - p) p arr) 0 (arr 0 -ℤ pos 1)

-- `setinit`
pub iter_init : Array → ℤ × Array
iter_init arr = (pos 0, write arr 0 (pos 0))

-- `pos <= count && arr[pos] == value`
abbrev pub found : Array → ℕ → ℤ → Bool
found arr p value = leb p (count arr) && eqb_ℤ (arr p) value

-- `setadd`
pub iter_add : Array → ℤ → ℤ × Array
iter_add arr value =
    let p = compact_search arr value in
    if ltb_ℤ value (pos 0)
    then (pos 0, arr)
    else if found arr p value
    then (pos 0, arr)
    else (pos 1, insert_at p value arr)

-- `setremove`
pub iter_remove : Array → ℤ → ℤ × Array
iter_remove arr value =
    let p = compact_search arr value in
    if found arr p value then (pos 1, remove_at p arr) else (pos 0, arr)

-- `sethas`
pub iter_contains : Array → ℤ → ℤ
iter_contains arr value = if found arr (compact_search arr value) value then pos 1 else pos 0

-- `setlen`
pub iter_count : Array → ℤ
iter_count arr = arr 0

-- `setfree`
pub iter_free : Array → ℤ
iter_free arr = let (k, e) = gap_from (count arr) arr 1 0 in pos e

-- `setget`
pub iter_get : Array → ℤ → ℤ
iter_get arr idx =
    if ltb_ℤ idx (pos 0) || leb (count arr) (pos_part idx) then negsuc 0 else arr (1 + pos_part idx)

-- `setalloc`
pub iter_alloc : Array → ℤ × Array
iter_alloc arr = let (k, e) = gap_from (count arr) arr 1 0 in (pos e, insert_at k (pos e) arr)

-- The `cellmin` sentinel, for cells of 32 bits.
abbrev pub cellmin : ℤ
cellmin = negsuc (2 ^ 31 - 1)

-- `setnext`
pub iter_next : Array → ℤ → ℤ
iter_next arr after =
    let p = compact_search arr after in
    let q = (if found arr p after then p + 1 else p) in if leb q (count arr) then arr q else cellmin

-- `setprev`
pub iter_prev : Array → ℤ → ℤ
iter_prev arr before =
    let p = compact_search arr before - 1 in if leb 1 p && leb p (count arr) then arr p else cellmin

-- `seed ^= seed << 13; seed ^= seed >> 17; seed ^= seed << 5`, on an `unsigned long` of `w` bits.
pub xorshift : ℕ → ℕ → ℕ
xorshift w s₀ =
    let s₁ = bit_xor s₀ (s₀ * 2 ^ 13 % 2 ^ w) in
    let s₂ = bit_xor s₁ (s₁ / 2 ^ 17) in bit_xor s₂ (s₂ * 2 ^ 5 % 2 ^ w)

-- `setrandom`: the value, and the new `seed`.
pub iter_random : ℕ → ℕ → Array → ℤ × ℕ
iter_random w seed arr =
    let seed' = xorshift w seed in
    if count arr == 0 then (negsuc 0, seed) else (arr (1 + seed' % count arr), seed')
