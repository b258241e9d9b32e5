-- ===== src/Assembler/Passes.antt =====
-- The passes of `assemble` (compiler/source/compiler/sc6.c) over the lines of the assembler file. A
-- line is its bytes up to the zero byte. `none` is error 104, an invalid instruction.
pub mod Layout
use pawn_x.Prelude.{
  ℕ, zero, suc, ◌+◌, Bool, true, false, ◌&&◌, ◌==◌, if◌then◌else◌, List, [], ◌∷◌, ◌++◌, Option,
  none, some, length, get_elem?, set,
}
use pawn_x.Prelude.Chars.{to_lower}
use pawn_x.Assembler.{findopcode}
use pawn_x.Assembler.Table.{Opcode, Segment, no_segment, cseg, dseg, opcodelist}
use pawn_x.Assembler.Number.{Names, hex2long, take_name}
use pawn_x.Assembler.Emit.{skipwhitespace, written_cells, returned_size, current_after}

-- `stripcomment`
unfoldable pub stripcomment : List ℕ → List ℕ
stripcomment [] = []
stripcomment (c ∷ s) = let rest = stripcomment s in if c == b';' then 10 ∷ [] else c ∷ rest

-- What a line is: empty, a label with its number, or an instruction with its parameters.
pub data Line : Type 0 where
  blank_line : Line
  label_line : ℕ → Line
  instruction : Opcode → List ℕ → Line

-- The entry of an index; index 0 is no instruction, as its name is NULL.
abbrev pub valid_opcode : Option ℕ → Option Opcode
valid_opcode none = none
valid_opcode (some zero) = none
valid_opcode (some (suc i)) = get_elem? opcodelist (suc i)

abbrev pub with_params : List ℕ → Option Opcode → Option Line
with_params params none = none
with_params params (some op) = some (instruction op (skipwhitespace params))

-- The instruction and what is behind it.
unfoldable pub read_instruction : List ℕ → Option Line
unfolding take_name findopcode opcodelist skipwhitespace
read_instruction instr =
    let (name, params) = take_name instr in
    with_params params (valid_opcode (findopcode instr (length name)))

unfoldable pub read_line : List ℕ → Option Line
unfolding stripcomment skipwhitespace read_instruction hex2long
read_line line = elim (skipwhitespace (stripcomment line)) [
  | [] ↦ some blank_line
  | c ∷ s ↦ elim s [
    | [] ↦ read_instruction (c ∷ [])
    | d ∷ t ↦
        if (to_lower c == b'l') && (d == b'.')
        then some (label_line (hex2long t).0)
        else read_instruction (c ∷ d ∷ t)
  ]
]

abbrev pub is_cseg : Segment → Bool
is_cseg no_segment = false
is_cseg cseg = true
is_cseg dseg = false

-- The first pass from a `codeindex` and a label table on.
unfoldable pub first_pass : List Line → ℕ → List ℕ → ℕ × List ℕ
unfolding returned_size
first_pass [] codeindex lbltab = (codeindex, lbltab)
first_pass (blank_line ∷ lines) codeindex lbltab = first_pass lines codeindex lbltab
first_pass (label_line i ∷ lines) codeindex lbltab =
    first_pass lines codeindex (set lbltab i codeindex)
first_pass (instruction op params ∷ lines) codeindex lbltab =
    let size = (if is_cseg (op.segment) then returned_size (op.func) params else 0) in
    first_pass lines (codeindex + size) lbltab

-- `opcodelist[i].segment==pass`
abbrev pub same_segment : Segment → Segment → Bool
same_segment no_segment no_segment = true
same_segment cseg cseg = true
same_segment dseg dseg = true
same_segment s pass = false

abbrev pub follow : Names → Opcode → List ℕ → Names
follow names op params = record names { fcurrent = current_after (op.func) names params }

-- The cells of one of the second passes.
unfoldable pub second_pass : Segment → Names → List Line → List ℕ
unfolding written_cells current_after
second_pass pass names [] = []
second_pass pass names (blank_line ∷ lines) = second_pass pass names lines
second_pass pass names (label_line i ∷ lines) = second_pass pass names lines
second_pass pass names (instruction op params ∷ lines) =
    if same_segment (op.segment) pass
    then written_cells (op.func) names params (op.opcode)
      ++ second_pass pass (follow names op params) lines
    else second_pass pass names lines

unfoldable pub read_lines : List (List ℕ) → Option (List Line)
unfolding read_line
read_lines [] = some []
read_lines (line ∷ lines) = elim (read_line line) [
  | none ↦ none
  | some l ↦ elim (read_lines lines) [ none ↦ none | some ls ↦ some (l ∷ ls) ]
]
