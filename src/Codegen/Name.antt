-- ===== src/Codegen/Name.antt =====
-- The instructions that the code generator writes: names, in front of a parameter.
use Prim.Native.String.{String}
use pawn_x.Prelude.{ℕ, ◌≡◌, refl, List, [], ◌∷◌, true}
use pawn_x.Prelude.Chars.{codes, itoh}
use pawn_x.Assembler.{stricmp, name_at, search, findopcode}
use pawn_x.Assembler.Table.{opcodelist, codes_a_to_i, codes_j_to_o, codes_p_to_z}
use pawn_x.Assembler.Number.{take_name}
use pawn_x.Assembler.Emit.{skipwhitespace, returned_size}
use pawn_x.Assembler.Passes.{stripcomment, read_line, read_lines, read_instruction}
use pawn_x.Codegen.Lines.{lines_of, is_whole, is_clean}
use pawn_x.Codegen.Sends.{Sends, lines_size, sent_size}
use pawn_x.Codegen.Line.{Names, Sends-number}

-- The names, each with the blank behind it.
pub data Name : Type 0 where
  load_pri load_alt load_s_pri load_s_alt lref_pri lref_s_pri stor_pri stor_alt stor_s_pri sref_pri
        sref_s_pri lodb_i strb_i const_pri const_alt addr_pri addr_alt add_c movs fill push_c switch
        jsless jsgrtr jump jnz jzer halt bounds stack heap align_pri inc dec inc_s dec_s sysreq_c
        call case :
      Name

abbrev pub name_string : Name → String
name_string Name.load_pri = "\tload.pri "
name_string Name.load_alt = "\tload.alt "
name_string Name.load_s_pri = "\tload.s.pri "
name_string Name.load_s_alt = "\tload.s.alt "
name_string Name.lref_pri = "\tlref.pri "
name_string Name.lref_s_pri = "\tlref.s.pri "
name_string Name.stor_pri = "\tstor.pri "
name_string Name.stor_alt = "\tstor.alt "
name_string Name.stor_s_pri = "\tstor.s.pri "
name_string Name.sref_pri = "\tsref.pri "
name_string Name.sref_s_pri = "\tsref.s.pri "
name_string Name.lodb_i = "\tlodb.i "
name_string Name.strb_i = "\tstrb.i "
name_string Name.const_pri = "\tconst.pri "
name_string Name.const_alt = "\tconst.alt "
name_string Name.addr_pri = "\taddr.pri "
name_string Name.addr_alt = "\taddr.alt "
name_string Name.add_c = "\tadd.c "
name_string Name.movs = "\tmovs "
name_string Name.fill = "\tfill "
name_string Name.push_c = "\tpush.c "
name_string Name.switch = "\tswitch "
name_string Name.jsless = "\tjsless "
name_string Name.jsgrtr = "\tjsgrtr "
name_string Name.jump = "\tjump "
name_string Name.jnz = "\tjnz "
name_string Name.jzer = "\tjzer "
name_string Name.halt = "\thalt "
name_string Name.bounds = "\tbounds "
name_string Name.stack = "\tstack "
name_string Name.heap = "\theap "
name_string Name.align_pri = "\talign.pri "
name_string Name.inc = "\tinc "
name_string Name.dec = "\tdec "
name_string Name.inc_s = "\tinc.s "
name_string Name.dec_s = "\tdec.s "
name_string Name.sysreq_c = "\tsysreq.c "
name_string Name.call = "\tcall "
name_string Name.case = "\tcase "

abbrev pub name : Name → List ℕ
name i = codes (name_string i)

pub name-Names : (i : Name) → Names (name i) 8
unfolding is_clean sent_size is_whole lines_of read_lines read_line stripcomment skipwhitespace
    read_instruction take_name findopcode search stricmp name_at opcodelist codes_a_to_i
    codes_j_to_o codes_p_to_z returned_size lines_size Names
name-Names Name.load_pri = (_, λ ps. refl, λ ps. refl)
name-Names Name.load_alt = (_, λ ps. refl, λ ps. refl)
name-Names Name.load_s_pri = (_, λ ps. refl, λ ps. refl)
name-Names Name.load_s_alt = (_, λ ps. refl, λ ps. refl)
name-Names Name.lref_pri = (_, λ ps. refl, λ ps. refl)
name-Names Name.lref_s_pri = (_, λ ps. refl, λ ps. refl)
name-Names Name.stor_pri = (_, λ ps. refl, λ ps. refl)
name-Names Name.stor_alt = (_, λ ps. refl, λ ps. refl)
name-Names Name.stor_s_pri = (_, λ ps. refl, λ ps. refl)
name-Names Name.sref_pri = (_, λ ps. refl, λ ps. refl)
name-Names Name.sref_s_pri = (_, λ ps. refl, λ ps. refl)
name-Names Name.lodb_i = (_, λ ps. refl, λ ps. refl)
name-Names Name.strb_i = (_, λ ps. refl, λ ps. refl)
name-Names Name.const_pri = (_, λ ps. refl, λ ps. refl)
name-Names Name.const_alt = (_, λ ps. refl, λ ps. refl)
name-Names Name.addr_pri = (_, λ ps. refl, λ ps. refl)
name-Names Name.addr_alt = (_, λ ps. refl, λ ps. refl)
name-Names Name.add_c = (_, λ ps. refl, λ ps. refl)
name-Names Name.movs = (_, λ ps. refl, λ ps. refl)
name-Names Name.fill = (_, λ ps. refl, λ ps. refl)
name-Names Name.push_c = (_, λ ps. refl, λ ps. refl)
name-Names Name.switch = (_, λ ps. refl, λ ps. refl)
name-Names Name.jsless = (_, λ ps. refl, λ ps. refl)
name-Names Name.jsgrtr = (_, λ ps. refl, λ ps. refl)
name-Names Name.jump = (_, λ ps. refl, λ ps. refl)
name-Names Name.jnz = (_, λ ps. refl, λ ps. refl)
name-Names Name.jzer = (_, λ ps. refl, λ ps. refl)
name-Names Name.halt = (_, λ ps. refl, λ ps. refl)
name-Names Name.bounds = (_, λ ps. refl, λ ps. refl)
name-Names Name.stack = (_, λ ps. refl, λ ps. refl)
name-Names Name.heap = (_, λ ps. refl, λ ps. refl)
name-Names Name.align_pri = (_, λ ps. refl, λ ps. refl)
name-Names Name.inc = (_, λ ps. refl, λ ps. refl)
name-Names Name.dec = (_, λ ps. refl, λ ps. refl)
name-Names Name.inc_s = (_, λ ps. refl, λ ps. refl)
name-Names Name.dec_s = (_, λ ps. refl, λ ps. refl)
name-Names Name.sysreq_c = (_, λ ps. refl, λ ps. refl)
name-Names Name.call = (_, λ ps. refl, λ ps. refl)
name-Names Name.case = (_, λ ps. refl, λ ps. refl)

pub name-is_clean : (i : Name) → is_clean (name i) ≡ true
unfolding is_clean
name-is_clean Name.load_pri = refl
name-is_clean Name.load_alt = refl
name-is_clean Name.load_s_pri = refl
name-is_clean Name.load_s_alt = refl
name-is_clean Name.lref_pri = refl
name-is_clean Name.lref_s_pri = refl
name-is_clean Name.stor_pri = refl
name-is_clean Name.stor_alt = refl
name-is_clean Name.stor_s_pri = refl
name-is_clean Name.sref_pri = refl
name-is_clean Name.sref_s_pri = refl
name-is_clean Name.lodb_i = refl
name-is_clean Name.strb_i = refl
name-is_clean Name.const_pri = refl
name-is_clean Name.const_alt = refl
name-is_clean Name.addr_pri = refl
name-is_clean Name.addr_alt = refl
name-is_clean Name.add_c = refl
name-is_clean Name.movs = refl
name-is_clean Name.fill = refl
name-is_clean Name.push_c = refl
name-is_clean Name.switch = refl
name-is_clean Name.jsless = refl
name-is_clean Name.jsgrtr = refl
name-is_clean Name.jump = refl
name-is_clean Name.jnz = refl
name-is_clean Name.jzer = refl
name-is_clean Name.halt = refl
name-is_clean Name.bounds = refl
name-is_clean Name.stack = refl
name-is_clean Name.heap = refl
name-is_clean Name.align_pri = refl
name-is_clean Name.inc = refl
name-is_clean Name.dec = refl
name-is_clean Name.inc_s = refl
name-is_clean Name.dec_s = refl
name-is_clean Name.sysreq_c = refl
name-is_clean Name.call = refl
name-is_clean Name.case = refl

pub Sends-name :
    (i : Name) (v : ℕ) (sent : List (List ℕ)) → Sends sent ((10 ∷ []) ∷ (itoh v ∷ name i ∷ sent)) 8
Sends-name i v sent = Sends-number sent (name i) v 8 (name-Names i) (name-is_clean i)
