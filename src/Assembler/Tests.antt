-- ===== src/Assembler/Tests.antt =====
-- The assembler at concrete lines.
use Prim.Native.Nat.{Ordering}
use mathlib.Core.Option.{some-injective}
use pawn_x.Machine.Instr.{Instr}
use pawn_x.Prelude.{
  zero, suc, ◌==◌, if◌then◌else◌, ◌≡◌, ◌<◌, ◌*◌, ◌↔◌, refl, arith, List, [], ◌∷◌, ◌++◌, some,
  length, get_elem?, take,
}
use pawn_x.Prelude.Chars.{codes}
use pawn_x.Peephole.{skip_blanks}
use pawn_x.Machine.Step.{decode}
use pawn_x.Machine.{Program}
use pawn_x.Assembler.{stricmp, name_at, search, findopcode}
use pawn_x.Assembler.Table.{
  Opcode, cseg, parm2, do_jump, opcodelist, codes_a_to_i, codes_j_to_o, codes_p_to_z,
}
use pawn_x.Assembler.Search.{findopcode-stricmp}
use pawn_x.Assembler.Number.{Names, hex_value, hex_signed, hex2long, take_name, param_sum, getparam}
use pawn_x.Assembler.Emit.{getparams, skipwhitespace, written_cells}
use pawn_x.Assembler.Passes.{
  Line, blank_line, label_line, instruction, stripcomment, read_instruction, read_line, read_lines,
  first_pass, second_pass,
}
use pawn_x.Assembler.Passes.Layout.{first_pass-second_pass}
use pawn_x.Assembler.Decoded.{Holds, decode-written_cells}
use pawn_x.Assembler.Roundtrip.{param_text, getparams-param_text}

abbrev names : Names
names = record { lbltab = 0 ∷ 12 ∷ []; address = λ file name. 64; fcurrent = 0 }

abbrev push2_c : Opcode
push2_c = record { opcode = 138; name = "push2.c"; segment = cseg; func = parm2 }

abbrev jump_op : Opcode
jump_op = record { opcode = 51; name = "jump"; segment = cseg; func = do_jump }

abbrev before : List Line
before = instruction push2_c (codes "8 -4 " ++ 10 ∷ []) ∷ []

abbrev after : List Line
after = instruction jump_op (codes "1") ∷ blank_line ∷ []

lines_read :
    read_lines
      ((9 ∷ codes "PUSH2.c 8 -4 ; both") ∷ codes "l.1" ∷ (9 ∷ codes "jump 1") ∷ codes ";" ∷ [])
    ≡ some (before ++ label_line 1 ∷ after)
unfolding read_lines read_line read_instruction stripcomment skipwhitespace take_name hex2long
    hex_signed hex_value skip_blanks findopcode search stricmp name_at opcodelist codes_a_to_i
    codes_j_to_o codes_p_to_z
lines_read = refl

code_written :
    second_pass cseg names (before ++ label_line 1 ∷ after) ≡ 138 ∷ 8 ∷ 4294967292 ∷ 51 ∷ 12 ∷ []
unfolding second_pass written_cells getparams getparam param_sum hex2long hex_signed hex_value
    skip_blanks
code_written = refl

first_pass-second_pass_example :
    (get_elem? (first_pass (before ++ label_line 1 ∷ after) 0 (0 ∷ 0 ∷ [])).1 1
      ≡ some (4 * length (second_pass cseg names before)))
    × ((take
            (length (second_pass cseg names before))
            (second_pass cseg names (before ++ label_line 1 ∷ after))
          ≡ second_pass cseg names before)
        × ((first_pass (before ++ label_line 1 ∷ after) 0 (0 ∷ 0 ∷ [])).0
            ≡ 4 * length (second_pass cseg names (before ++ label_line 1 ∷ after))))
first_pass-second_pass_example =
    first_pass-second_pass names before after 1 (0 ∷ 0 ∷ []) (omega arith)
      ((λ s. s), ((λ s. s), tt))

opcodelist_is_long : 96 < length opcodelist
unfolding opcodelist codes_a_to_i codes_j_to_o codes_p_to_z
opcodelist_is_long = omega arith

findopcode-stricmp_example :
    (findopcode (codes "Push2.C 8") 7 ≡ some 96)
    ↔ (stricmp (take 7 (codes "Push2.C 8")) (name_at 96) ≡ Ordering.eq)
findopcode-stricmp_example =
    findopcode-stricmp (codes "Push2.C 8") 7 96 (omega arith) (omega arith) opcodelist_is_long

abbrev program : Program
program = record {
  code = λ a. if a == 0 then 51 else 12;
  codesize = 8;
  cod = 0;
  dat = 8;
  hlw = 0;
  stp = 4096;
  flags = 0;
}

jump-listed : get_elem? opcodelist 56 ≡ some jump_op
unfolding opcodelist codes_a_to_i codes_j_to_o codes_p_to_z
jump-listed = refl

cells_held : Holds program 0 (written_cells do_jump names (codes "1") 51)
unfolding written_cells hex2long hex_signed hex_value skip_blanks
cells_held zero c e = some-injective 51 c e
cells_held (suc zero) c e = some-injective 12 c e
cells_held (suc (suc k)) c e = absurd (cc e)

decode-written_cells_example :
    (length (written_cells do_jump names (codes "1") 51) ≡ 2)
    × ((instr : Instr) × (decode program 0 ≡ some (instr, 1)))
decode-written_cells_example =
    decode-written_cells 56 1 jump_op names (codes "1") program 0 jump-listed refl (omega arith)
      cells_held

getparams-param_text_example :
    getparams 2 names (param_text (255 ∷ 4294967295 ∷ [])) ≡ 255 ∷ 4294967295 ∷ []
getparams-param_text_example =
    getparams-param_text names (255 ∷ 4294967295 ∷ []) (omega arith, (omega arith, tt))
