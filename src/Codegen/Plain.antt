-- ===== src/Codegen/Plain.antt =====
-- The instructions that the code generator writes: the lines without a symbolic parameter, and the
-- names in front of one.
use pawn_x.Prelude.{ℕ, refl, List, ◌∷◌}
use pawn_x.Prelude.Chars.{codes}
use pawn_x.Assembler.{stricmp, name_at, search, findopcode}
use pawn_x.Assembler.Table.{opcodelist, codes_a_to_i, codes_j_to_o, codes_p_to_z}
use pawn_x.Assembler.Number.{take_name}
use pawn_x.Assembler.Emit.{skipwhitespace, returned_size}
use pawn_x.Assembler.Passes.{stripcomment, read_line, read_lines, read_instruction}
use pawn_x.Codegen.Lines.{lines_of, is_whole, is_clean}
use pawn_x.Codegen.Sends.{Sends, lines_size, sent_size, Sends-text}
use pawn_x.Codegen.Line.{Names}

-- Lines of one word.
pub data Plain : Type 0 where
  load_i stor_i move_pri move_alt push_pri push_alt pop_pri pop_alt swap_pri swap_alt inc_i dec_i
        inc_pri dec_pri zero_pri zero_alt ret retn casetbl smul sdiv_alt add sub_alt xchg shl sshr
        shr or xor and eq neq sless sleq sgrtr sgeq not neg invert nop :
      Plain

abbrev pub text : Plain → List ℕ
text Plain.load_i = codes "\tload.i\n"
text Plain.stor_i = codes "\tstor.i\n"
text Plain.move_pri = codes "\tmove.pri\n"
text Plain.move_alt = codes "\tmove.alt\n"
text Plain.push_pri = codes "\tpush.pri\n"
text Plain.push_alt = codes "\tpush.alt\n"
text Plain.pop_pri = codes "\tpop.pri\n"
text Plain.pop_alt = codes "\tpop.alt\n"
text Plain.swap_pri = codes "\tswap.pri\n"
text Plain.swap_alt = codes "\tswap.alt\n"
text Plain.inc_i = codes "\tinc.i\n"
text Plain.dec_i = codes "\tdec.i\n"
text Plain.inc_pri = codes "\tinc.pri\n"
text Plain.dec_pri = codes "\tdec.pri\n"
text Plain.zero_pri = codes "\tzero.pri\n"
text Plain.zero_alt = codes "\tzero.alt\n"
text Plain.ret = codes "\tret\n"
text Plain.retn = codes "\tretn\n"
text Plain.casetbl = codes "\tcasetbl\n"
text Plain.smul = codes "\tsmul\n"
text Plain.sdiv_alt = codes "\tsdiv.alt\n"
text Plain.add = codes "\tadd\n"
text Plain.sub_alt = codes "\tsub.alt\n"
text Plain.xchg = codes "\txchg\n"
text Plain.shl = codes "\tshl\n"
text Plain.sshr = codes "\tsshr\n"
text Plain.shr = codes "\tshr\n"
text Plain.or = codes "\tor\n"
text Plain.xor = codes "\txor\n"
text Plain.and = codes "\tand\n"
text Plain.eq = codes "\teq\n"
text Plain.neq = codes "\tneq\n"
text Plain.sless = codes "\tsless\n"
text Plain.sleq = codes "\tsleq\n"
text Plain.sgrtr = codes "\tsgrtr\n"
text Plain.sgeq = codes "\tsgeq\n"
text Plain.not = codes "\tnot\n"
text Plain.neg = codes "\tneg\n"
text Plain.invert = codes "\tinvert\n"
text Plain.nop = codes "\tnop\n"

pub Sends-plain : (i : Plain) (sent : List (List ℕ)) → Sends sent (text i ∷ sent) 4
unfolding is_clean sent_size is_whole lines_of read_lines read_line stripcomment skipwhitespace
    read_instruction take_name findopcode search stricmp name_at opcodelist codes_a_to_i
    codes_j_to_o codes_p_to_z returned_size lines_size Names
Sends-plain Plain.load_i sent = Sends-text sent (text Plain.load_i) 4 refl
Sends-plain Plain.stor_i sent = Sends-text sent (text Plain.stor_i) 4 refl
Sends-plain Plain.move_pri sent = Sends-text sent (text Plain.move_pri) 4 refl
Sends-plain Plain.move_alt sent = Sends-text sent (text Plain.move_alt) 4 refl
Sends-plain Plain.push_pri sent = Sends-text sent (text Plain.push_pri) 4 refl
Sends-plain Plain.push_alt sent = Sends-text sent (text Plain.push_alt) 4 refl
Sends-plain Plain.pop_pri sent = Sends-text sent (text Plain.pop_pri) 4 refl
Sends-plain Plain.pop_alt sent = Sends-text sent (text Plain.pop_alt) 4 refl
Sends-plain Plain.swap_pri sent = Sends-text sent (text Plain.swap_pri) 4 refl
Sends-plain Plain.swap_alt sent = Sends-text sent (text Plain.swap_alt) 4 refl
Sends-plain Plain.inc_i sent = Sends-text sent (text Plain.inc_i) 4 refl
Sends-plain Plain.dec_i sent = Sends-text sent (text Plain.dec_i) 4 refl
Sends-plain Plain.inc_pri sent = Sends-text sent (text Plain.inc_pri) 4 refl
Sends-plain Plain.dec_pri sent = Sends-text sent (text Plain.dec_pri) 4 refl
Sends-plain Plain.zero_pri sent = Sends-text sent (text Plain.zero_pri) 4 refl
Sends-plain Plain.zero_alt sent = Sends-text sent (text Plain.zero_alt) 4 refl
Sends-plain Plain.ret sent = Sends-text sent (text Plain.ret) 4 refl
Sends-plain Plain.retn sent = Sends-text sent (text Plain.retn) 4 refl
Sends-plain Plain.casetbl sent = Sends-text sent (text Plain.casetbl) 4 refl
Sends-plain Plain.smul sent = Sends-text sent (text Plain.smul) 4 refl
Sends-plain Plain.sdiv_alt sent = Sends-text sent (text Plain.sdiv_alt) 4 refl
Sends-plain Plain.add sent = Sends-text sent (text Plain.add) 4 refl
Sends-plain Plain.sub_alt sent = Sends-text sent (text Plain.sub_alt) 4 refl
Sends-plain Plain.xchg sent = Sends-text sent (text Plain.xchg) 4 refl
Sends-plain Plain.shl sent = Sends-text sent (text Plain.shl) 4 refl
Sends-plain Plain.sshr sent = Sends-text sent (text Plain.sshr) 4 refl
Sends-plain Plain.shr sent = Sends-text sent (text Plain.shr) 4 refl
Sends-plain Plain.or sent = Sends-text sent (text Plain.or) 4 refl
Sends-plain Plain.xor sent = Sends-text sent (text Plain.xor) 4 refl
Sends-plain Plain.and sent = Sends-text sent (text Plain.and) 4 refl
Sends-plain Plain.eq sent = Sends-text sent (text Plain.eq) 4 refl
Sends-plain Plain.neq sent = Sends-text sent (text Plain.neq) 4 refl
Sends-plain Plain.sless sent = Sends-text sent (text Plain.sless) 4 refl
Sends-plain Plain.sleq sent = Sends-text sent (text Plain.sleq) 4 refl
Sends-plain Plain.sgrtr sent = Sends-text sent (text Plain.sgrtr) 4 refl
Sends-plain Plain.sgeq sent = Sends-text sent (text Plain.sgeq) 4 refl
Sends-plain Plain.not sent = Sends-text sent (text Plain.not) 4 refl
Sends-plain Plain.neg sent = Sends-text sent (text Plain.neg) 4 refl
Sends-plain Plain.invert sent = Sends-text sent (text Plain.invert) 4 refl
Sends-plain Plain.nop sent = Sends-text sent (text Plain.nop) 4 refl

-- Lines of two words.
pub data Constant : Type 0 where
  lctrl_stk lctrl_frm sctrl_stk sctrl_frm shl_c_pri shl_c_alt shr_c_pri : Constant

abbrev pub constant_text : Constant → List ℕ
constant_text lctrl_stk = codes "\tlctrl 4\n"
constant_text lctrl_frm = codes "\tlctrl 5\n"
constant_text sctrl_stk = codes "\tsctrl 4\n"
constant_text sctrl_frm = codes "\tsctrl 5\n"
constant_text shl_c_pri = codes "\tshl.c.pri 2\n"
constant_text shl_c_alt = codes "\tshl.c.alt 2\n"
constant_text shr_c_pri = codes "\tshr.c.pri 2\n"

pub Sends-constant : (i : Constant) (sent : List (List ℕ)) → Sends sent (constant_text i ∷ sent) 8
unfolding is_clean sent_size is_whole lines_of read_lines read_line stripcomment skipwhitespace
    read_instruction take_name findopcode search stricmp name_at opcodelist codes_a_to_i
    codes_j_to_o codes_p_to_z returned_size lines_size Names
Sends-constant lctrl_stk sent = Sends-text sent (constant_text lctrl_stk) 8 refl
Sends-constant lctrl_frm sent = Sends-text sent (constant_text lctrl_frm) 8 refl
Sends-constant sctrl_stk sent = Sends-text sent (constant_text sctrl_stk) 8 refl
Sends-constant sctrl_frm sent = Sends-text sent (constant_text sctrl_frm) 8 refl
Sends-constant shl_c_pri sent = Sends-text sent (constant_text shl_c_pri) 8 refl
Sends-constant shl_c_alt sent = Sends-text sent (constant_text shl_c_alt) 8 refl
Sends-constant shr_c_pri sent = Sends-text sent (constant_text shr_c_pri) 8 refl
