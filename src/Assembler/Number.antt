-- ===== src/Assembler/Number.antt =====
-- `hex2long` and `getparam` of compiler/source/compiler/sc6.c. An assertion counts as no test.
use pawn_x.Prelude.{
  ℕ, zero, suc, ◌+◌, ◌*◌, ◌%◌, Bool, true, false, ◌||◌, ◌&&◌, ◌==◌, leb, if◌then◌else◌, List, [],
  ◌∷◌, length, get_or,
}
use pawn_x.Prelude.Chars.{is_hex, hex_digit}
use pawn_x.Cell.{modulus, add, neg}
use pawn_x.Peephole.{skip_blanks}

-- The loop of `hex2long`; `(result<<4) | digit` puts the digit into bits that are zero.
unfoldable pub hex_value : ℕ → List ℕ → ℕ × List ℕ
hex_value result [] = (result, [])
hex_value result (c ∷ s) =
    let more = hex_value (result * 16 % modulus + hex_digit c) s in
    if is_hex c then more else (result, c ∷ s)

-- From `if (*s=='-')` on.
unfoldable pub hex_signed : List ℕ → ℕ × List ℕ
unfolding hex_value
hex_signed [] = (0, [])
hex_signed (c ∷ s) =
    if c == b'-' then (neg (hex_value 0 s).0, (hex_value 0 s).1) else hex_value 0 (c ∷ s)

unfoldable pub hex2long : List ℕ → ℕ × List ℕ
unfolding hex_signed skip_blanks
hex2long s = hex_signed (skip_blanks s)

-- `isspace`
abbrev pub is_space : ℕ → Bool
is_space c = (c == 32) || (leb 9 c && leb c 13)

-- The text up to white space, and from there on.
unfoldable pub take_name : List ℕ → List ℕ × List ℕ
take_name [] = ([], [])
take_name (c ∷ s) =
    let (name, rest) = take_name s in if is_space c then ([], c ∷ s) else (c ∷ name, rest)

-- What the functions read: `lbltab`, the addresses of the functions that `findglb` finds from a file,
-- and `fcurrent`.
pub record Names : Type 0 where
  pub lbltab : List ℕ
  pub address : ℕ → List ℕ → ℕ
  pub fcurrent : ℕ

-- `lbltab[i]`, which the assertions have in range.
abbrev pub label_at : Names → ℕ → ℕ
label_at names i = get_or (names.lbltab) i 0

-- The loop of `getparam` over the terms of a sum, with a bound on their number.
unfoldable pub param_sum : ℕ → ℕ → List ℕ → ℕ × List ℕ
unfolding hex2long
param_sum zero result s = (result, s)
param_sum (suc terms) result s =
    let (value, rest) = hex2long s in
    let result' = add result value in
    elim rest [
      | [] ↦ (result', [])
      | c ∷ s' ↦ elim (c == b'+') [ true ↦ param_sum terms result' s' | false ↦ (result', c ∷ s') ]
    ]

-- A number, from the third case of `getparam`.
abbrev pub param_number : List ℕ → ℕ × List ℕ
param_number s = param_sum (suc (length s)) 0 s

abbrev pub param_label : Names → List ℕ → List ℕ → ℕ × List ℕ
param_label names s [] = param_number s
param_label names s (d ∷ s') =
    if d == b'.' then (label_at names (hex2long s').0, s) else param_number s

-- `getparam`: the value, and `*n`, which behind a label is the text itself.
unfoldable pub getparam : Names → List ℕ → ℕ × List ℕ
unfolding take_name hex2long param_sum
getparam names [] = param_number []
getparam names (c ∷ s) =
    if c == b'.'
    then (names.address (names.fcurrent) (take_name s).0, (take_name s).1)
    else if c == b'l'
    then param_label names (c ∷ s) s
    else param_number (c ∷ s)
