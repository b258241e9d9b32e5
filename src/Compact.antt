-- ===== src/Compact.antt =====
-- The compact encoding of 32-bit cells: `encode_cell` and `write_encoded` of
-- compiler/source/compiler/sc6.c, which write it, and `expand` of compiler/source/amx/amx.c, which
-- expands it in place. What `pc_writebin` has written is a list of bytes; that a write can fail, which
-- is kept in `writeerror`, is left out. `ucell` is written and stored with its low byte first. The ring
-- of spare cells, with `sh`, `st` and `sc`, is a list with the oldest first.
pub mod FirstByte
pub mod ReadCell
pub mod Roundtrip
pub mod Spares
pub mod Tape
mod Tests
use pawn_x.Prelude.{
  ℕ, zero, suc, ◌+◌, ◌-◌, ◌*◌, ◌/◌, ◌%◌, ◌^◌, Bool, false, ◌&&◌, not, ltb, leb, ◌==◌, if◌then◌else◌,
  List, [], ◌∷◌, ◌++◌, Option, none, some, true, ◌||◌, drop, length,
}
use pawn_x.Cell.{modulus}
use pawn_x.Memory.{Memory, write}

-- `buffer[k]` after the first loop: seven bits, the highest four alone in `buffer[0]`.
abbrev pub group : ℕ → ℕ → ℕ
group c k = c / 2 ^ (28 - 7 * k) % 128

-- `(b & 0x40)!=0` of a group.
abbrev pub high_bit : ℕ → Bool
high_bit b = leb 64 b

-- "skip leading zeros", at `j = index + 1`.
pub skip_zeros : ℕ → ℕ → ℕ → ℕ
skip_zeros zero c j = j
skip_zeros (suc rounds) c j =
    let rest = skip_zeros rounds c (j + 1) in
    if ltb j 4 && ((group c j == 0) && not (high_bit (group c (j + 1)))) then rest else j

-- "skip leading -1s": the first, of four bits (ENC_MASK), then the others.
pub skip_ones : ℕ → ℕ → ℕ → ℕ
skip_ones zero c j = j
skip_ones (suc rounds) c j =
    let rest = skip_ones rounds c (j + 1) in
    if ltb j 4 && ((group c j == 127) && high_bit (group c (j + 1))) then rest else j

pub skip_first_ones : ℕ → ℕ → ℕ
skip_first_ones c j = if (j == 0) && ((group c 0 == 15) && high_bit (group c 1)) then j + 1 else j

-- The first byte that is kept. No loop makes more than four rounds.
pub first_byte : ℕ → ℕ
first_byte c = skip_ones 4 c (skip_first_ones c (skip_zeros 4 c 0))

-- `encode_cell`: all bytes but the last have the continuation bit.
pub encode_cell : ℕ → List ℕ
encode_cell c =
    drop (first_byte c) (
      (group c 0 + 128)
      ∷ (group c 1 + 128)
      ∷ (group c 2 + 128)
      ∷ (group c 3 + 128)
      ∷ group c 4
      ∷ [])

-- `AMX_COMPACTMARGIN`
abbrev pub compact_margin : ℕ
compact_margin = 64

-- The file, `bytes_in` and `bytes_out`.
pub record Out : Type 0 where
  pub bin : List ℕ
  pub bytes_in : ℕ
  pub bytes_out : ℕ

-- The bytes of a cell.
abbrev pub cell_bytes : ℕ → List ℕ
cell_bytes c = (c % 256) ∷ (c / 256 % 256) ∷ (c / 65536 % 256) ∷ (c / 16777216 % 256) ∷ []

-- A compact cell in the file, and both counts.
abbrev pub compacted : ℕ → Out → Out
compacted c out = record {
  bin = out.bin ++ encode_cell c;
  bytes_in = out.bytes_in + 4;
  bytes_out = out.bytes_out + length (encode_cell c);
}

-- The body of `write_encoded`, by `sc_compress`: `none` is the `longjmp` to `compact_err`, or a failed
-- assertion.
abbrev pub write_cell : Bool → ℕ → Out → Option Out
write_cell true c out =
    if leb ((compacted c out).bytes_in + (compact_margin - 2)) (compacted c out).bytes_out
    then none
    else some (compacted c out)
write_cell false c out =
    if length out.bin % 4 == 0 then some (record out { bin = out.bin ++ cell_bytes c }) else none

-- `write_encoded`
pub write_encoded : Bool → List ℕ → Out → Option Out
write_encoded compress [] out = some out
write_encoded compress (c ∷ cs) out = elim (write_cell compress c out) [
  | none ↦ none
  | some out' ↦ write_encoded compress cs out'
]

-- "sign expand": all bits from `shift` up, if the last byte read has bit 0x40.
abbrev pub sign_expand : ℕ → ℕ → ℕ → ℕ
sign_expand b shift c = if high_bit (b % 128) && ltb shift 32 then c + (modulus - 2 ^ shift) else c

-- `codesize>0 && (code[codesize-1] & 0x80)!=0`
pub continues : List ℕ → Bool
continues [] = false
continues (b ∷ bs) = leb 128 b

-- The two assertions on a byte that is read.
abbrev pub is_proper : ℕ → ℕ → Bool
is_proper shift b = ltb shift 32 && (ltb 0 shift || not (leb 128 b))

-- One cell off the end: the bytes from the last back, the bits read so far and their number. The
-- bits that `|=` joins are apart, so it is a sum. The cell, and the bytes before it; `none` is a
-- failed assertion.
pub read_cell : List ℕ → ℕ → ℕ → Option (ℕ × List ℕ)
unfolding continues
read_cell [] shift c = none
read_cell (b ∷ bs) shift c =
    let c' = c + b % 128 * 2 ^ shift % modulus in
    let rest = read_cell bs (shift + 7) c' in
    if is_proper shift b
    then if continues bs then rest else some (sign_expand b (shift + 7) c', bs)
    else none

-- An item of `spare`.
pub record Spare : Type 0 where
  pub memloc : ℕ
  pub c : ℕ

-- The variables of `expand`, with the memory at `code`.
pub record Expanding : Type 0 where
  pub code : Memory
  pub codesize : ℕ
  pub memsize : ℕ
  pub spare : List Spare

-- The compact bytes that are not read yet, from the last back.
pub code_back : Memory → ℕ → List ℕ
code_back code zero = []
code_back code (suc n) = code n ∷ code_back code n

-- `while (sc && (spare[sh].memloc>codesize))`
pub flush : ℕ → Memory → List Spare → Memory × List Spare
flush codesize code [] = (code, [])
flush codesize code (s ∷ ss) =
    let more = flush codesize (write code s.memloc s.c) ss in
    if ltb codesize s.memloc then more else (code, s ∷ ss)

-- "store", behind that loop: the cell `c` at `memsize`, or among the spare cells.
abbrev pub place_cell : ℕ → ℕ → ℕ → Memory × List Spare → Option Expanding
place_cell c codesize memsize (code, spare) =
    if ltb codesize memsize || ((memsize == codesize) && (memsize == 0))
    then some (record {
      code = write code memsize c;
      codesize = codesize;
      memsize = memsize;
      spare = spare;
    })
    else if ltb (length spare) compact_margin
    then some (record {
      code = code;
      codesize = codesize;
      memsize = memsize;
      spare = spare ++ (record { memloc = memsize; c = c } ∷ []);
    })
    else none

-- A round of the outer loop behind the reading of a cell.
abbrev pub expand_step : Expanding → Option (ℕ × List ℕ) → Option Expanding
expand_step x none = none
expand_step x (some (c, rest)) =
    if leb 4 x.memsize
    then place_cell c (length rest) (x.memsize - 4) (flush (length rest) x.code x.spare)
    else none

-- The outer loop in at most so many rounds.
pub expand_from : ℕ → Expanding → Option Memory
unfolding read_cell code_back flush
expand_from zero x = if x.codesize == 0 then if x.memsize == 0 then some x.code else none else none
expand_from (suc rounds) x =
    if x.codesize == 0
    then if x.memsize == 0 then some x.code else none
    else elim (expand_step x (read_cell (code_back x.code x.codesize) 0 0)) [
      | none ↦ none
      | some x' ↦ expand_from rounds x'
    ]

-- `expand`: what is at `code` then; `none` is a failed assertion. Every round takes a byte.
pub expand : Memory → ℕ → ℕ → Option Memory
unfolding expand_from
expand code codesize memsize =
    if memsize % 4 == 0
    then expand_from codesize
        (record { code = code; codesize = codesize; memsize = memsize; spare = [] })
    else none
