-- ===== src/Utf8.antt =====
-- UTF-8 in the abstract machine: `amx_UTF8Get`, `amx_UTF8Put` and `amx_UTF8Check` of
-- compiler/source/amx/amx.c. A string is the list of its bytes with the terminating zero, so that
-- no character that the code reads is cut off by the list's end. `none` is AMX_ERR_PARAMS. Shifts
-- and masks are written as division and remainder.
pub mod Roundtrip
pub mod Check
mod Tests
use pawn_x.Prelude.{
  ℕ, zero, suc, ◌+◌, ◌-◌, ◌*◌, ◌/◌, ◌%◌, ◌^◌, Bool, true, false, ◌&&◌, ◌||◌, ltb, leb, ◌==◌,
  if◌then◌else◌, List, [], ◌∷◌, Option, none, some, length, get_or,
}
use pawn_x.Cell.{is_neg}

-- `utf8_count`: the number of follow-up bytes less one, by the four bits below the top two.
abbrev pub utf8_count : List ℕ
utf8_count = 0 ∷ 0 ∷ 0 ∷ 0 ∷ 0 ∷ 0 ∷ 0 ∷ 0 ∷ 1 ∷ 1 ∷ 1 ∷ 1 ∷ 2 ∷ 2 ∷ 3 ∷ 4 ∷ []

-- `utf8_lowmark`: the least character of each length.
abbrev pub utf8_lowmark : List ℕ
utf8_lowmark = 128 ∷ 2048 ∷ 65536 ∷ 2097152 ∷ 67108864 ∷ []

-- The reserved positions: surrogates, 0xfffe and 0xffff.
abbrev pub is_reserved : ℕ → Bool
is_reserved v = (leb 55296 v && leb v 57343) || ((v == 65534) || (v == 65535))

-- The `switch` on `followup`: so many follow-up bytes, each with its two leading bits verified.
pub collect : ℕ → List ℕ → ℕ → Option (ℕ × List ℕ)
collect zero bs result = some (result, bs)
collect (suc n) [] result = none
collect (suc n) (c ∷ bs) result =
    let rest = collect n bs (result * 64 + c % 64) in if leb 128 c && ltb c 192 then rest else none

-- The additional checks on what was read.
pub verify : ℕ → Option (ℕ × List ℕ) → Option (ℕ × List ℕ)
verify lowmark none = none
verify lowmark (some (v, bs)) = if ltb v lowmark || is_reserved v then none else some (v, bs)

-- `amx_UTF8Get`: the character and the string behind it.
pub utf8_get : List ℕ → Option (ℕ × List ℕ)
unfolding collect verify
utf8_get [] = none
utf8_get (c ∷ bs) =
    if ltb c 128
    then some (c, bs)
    else if ltb c 192 || leb 254 c
    then none
    else let followup = get_or utf8_count (c / 4 % 16) 0 in
      verify (get_or utf8_lowmark followup 0) (collect (followup + 1) bs (c % 2 ^ (5 - followup)))

-- A follow-up byte with six bits of `v`, from the bit `k` on.
abbrev pub tail : ℕ → ℕ → ℕ
tail v k = v / 2 ^ k % 64 + 128

-- `if (maxchars < n) goto error;` and the bytes that are stored otherwise.
abbrev pub fit : ℕ → List ℕ → Option (List ℕ)
fit maxchars bytes = if ltb maxchars (length bytes) then none else some bytes

-- `amx_UTF8Put`: the bytes for a cell. A negative cell is below 0x80 and is stored as one byte.
pub utf8_put : ℕ → ℕ → Option (List ℕ)
utf8_put maxchars v =
    if is_neg v || ltb v 128
    then fit maxchars ((v % 256) ∷ [])
    else if ltb v 2048
    then fit maxchars ((v / 64 % 32 + 192) ∷ tail v 0 ∷ [])
    else if ltb v 65536
    then (if is_reserved v
        then none
        else fit maxchars ((v / 4096 % 16 + 224) ∷ tail v 6 ∷ tail v 0 ∷ []))
    else if ltb v 2097152
    then fit maxchars ((v / 262144 % 8 + 240) ∷ tail v 12 ∷ tail v 6 ∷ tail v 0 ∷ [])
    else if ltb v 67108864
    then fit maxchars ((v / 16777216 % 4 + 248) ∷ tail v 18 ∷ tail v 12 ∷ tail v 6 ∷ tail v 0 ∷ [])
    else fit maxchars
        ((v / 1073741824 % 2 + 252) ∷ tail v 24 ∷ tail v 18 ∷ tail v 12 ∷ tail v 6 ∷ tail v 0 ∷ [])

-- The loop of `amx_UTF8Check`: whether the string is valid, and `len`. It stops at the zero byte or
-- behind an error, and each round reads a byte at least.
pub check_from : ℕ → List ℕ → ℕ → Bool × ℕ
unfolding utf8_get
check_from rounds [] len = (false, len)
check_from zero (c ∷ bs) len = (false, len)
check_from (suc rounds) (c ∷ bs) len = if c == 0 then (true, len) else elim (utf8_get (c ∷ bs)) [
  | none ↦ (false, len + 1)
  | some (v, rest) ↦ check_from rounds rest (len + 1)
]

-- `amx_UTF8Check`
pub utf8_check : List ℕ → Bool × ℕ
unfolding check_from
utf8_check bs = check_from (length bs) bs 0
