-- ===== src/Prelude/Chars.antt =====
-- Characters as numbers, for the C strings that the code walks: the tests of ctype.h in the "C"
-- locale, and `alphanum`, `ishex` and `itoh` of compiler/source/compiler/sc2.c.
use Prim.Native.Char.{code}
use Prim.Native.Nat.{ℕ, zero, suc, ◌+◌, ◌-◌, ◌/◌, ◌%◌}
use Prim.Native.String.{String}
use mathlib.Core.Bool.{Bool, ◌&&◌, ◌||◌}
use mathlib.Core.List.{List, [], ◌∷◌}
use pawn_x.Prelude.Tests.{leb, ◌==◌, if◌then◌else◌}

-- The bytes of an ASCII text.
abbrev pub codes : String → List ℕ
codes String.[] = []
codes (String.◌∷◌ c s) = code c ∷ codes s

abbrev pub is_digit : ℕ → Bool
is_digit c = leb b'0' c && leb c b'9'

abbrev pub is_upper : ℕ → Bool
is_upper c = leb b'A' c && leb c b'Z'

abbrev pub is_lower : ℕ → Bool
is_lower c = leb b'a' c && leb c b'z'

abbrev pub to_lower : ℕ → ℕ
to_lower c = if is_upper c then c + 32 else c

-- `alphanum`, with PUBLIC_CHAR `@`.
abbrev pub alphanum : ℕ → Bool
alphanum c = is_digit c || (is_lower c || (is_upper c || ((c == b'_') || (c == b'@'))))

-- The digits that `hex2long` takes.
abbrev pub is_hex : ℕ → Bool
is_hex c = is_digit c || ((leb b'a' c && leb c b'f') || (leb b'A' c && leb c b'F'))

abbrev pub hex_digit : ℕ → ℕ
hex_digit c = if is_digit c then c - b'0' else if leb b'a' c then c - b'a' + 10 else c - b'A' + 10

-- `hex[d]`
abbrev pub hex_char : ℕ → ℕ
hex_char d = if leb d 9 then b'0' + d else b'a' + (d - 10)

-- The loop of `itoh`, which writes from the last digit back, for at most eight digits.
unfoldable pub itoh_from : ℕ → ℕ → List ℕ → List ℕ
itoh_from zero v digits = digits
itoh_from (suc n) v digits =
    let digits' = hex_char (v % 16) ∷ digits in
    let more = itoh_from n (v / 16) digits' in if v / 16 == 0 then digits' else more

-- `itoh` on a cell of 32 bits.
unfoldable pub itoh : ℕ → List ℕ
unfolding itoh_from
itoh v = itoh_from 8 v []
