-- ===== src/Cell.antt =====
-- The 32-bit cell of compiler/source/amx/amx.h (`cell`, `ucell`, PAWN_CELL_SIZE 32), as its bit
-- pattern: a number below 2 ^ 32. Signed reading is by the sign bit, and arithmetic wraps.
use pawn_x.Prelude.{ℕ, ◌+◌, ◌-◌, ◌*◌, ◌/◌, ◌%◌, ◌^◌, Bool, leb, ltb, if◌then◌else◌}

abbrev pub modulus : ℕ
modulus = 2 ^ 32

-- `CELL_MIN`, the most negative cell.
abbrev pub cell_min : ℕ
cell_min = 2 ^ 31

-- `+`, `-` and `*` on cells.
abbrev pub add : ℕ → ℕ → ℕ
add a b = (a + b) % modulus

abbrev pub sub : ℕ → ℕ → ℕ
sub a b = (a + (modulus - b % modulus)) % modulus

abbrev pub mul : ℕ → ℕ → ℕ
mul a b = a * b % modulus

abbrev pub neg : ℕ → ℕ
neg a = sub 0 a

-- `a<0`
abbrev pub is_neg : ℕ → Bool
is_neg a = leb cell_min a

-- Signed `<` and `<=`: unsigned with the sign bits turned over.
abbrev pub slt : ℕ → ℕ → Bool
slt a b = ltb ((a + cell_min) % modulus) ((b + cell_min) % modulus)

abbrev pub sle : ℕ → ℕ → Bool
sle a b = leb ((a + cell_min) % modulus) ((b + cell_min) % modulus)

-- A C truth value.
abbrev pub of_bool : Bool → ℕ
of_bool b = if b then 1 else 0

-- The absolute value of a signed cell.
abbrev pub mag : ℕ → ℕ
mag a = if is_neg a then modulus - a else a

-- C's signed `/` and `%`, which truncate; `b` is not 0.
abbrev pub tdiv : ℕ → ℕ → ℕ
tdiv a b =
    if is_neg a
    then if is_neg b then mag a / mag b % modulus else neg (mag a / mag b)
    else if is_neg b
    then neg (mag a / mag b)
    else mag a / mag b

abbrev pub trem : ℕ → ℕ → ℕ
trem a b = if is_neg a then neg (mag a % mag b) else mag a % mag b

-- Shifts. C leaves a count from 32 up undefined.
abbrev pub shl : ℕ → ℕ → ℕ
shl a n = a * 2 ^ n % modulus

abbrev pub shr : ℕ → ℕ → ℕ
shr a n = a / 2 ^ n

abbrev pub sshr : ℕ → ℕ → ℕ
sshr a n = if is_neg a then modulus - 1 - (modulus - 1 - a) / 2 ^ n else a / 2 ^ n

abbrev pub invert : ℕ → ℕ
invert a = modulus - 1 - a
