-- ===== src/Codegen/Emits/Directive.antt =====
-- What the functions send that write names, comments and directives (sc4.c).
use pawn_x.Prelude.{ℕ, ◌*◌, ◌-◌, ◌≡◌, refl, Bool, true, ◌&&◌, ◌||◌, List, [], ◌∷◌, ◌++◌, arith}
use pawn_x.Prelude.Chars.{codes, itoh}
use pawn_x.Assembler.{stricmp, name_at, search, findopcode}
use pawn_x.Assembler.Table.{opcodelist, codes_a_to_i, codes_j_to_o, codes_p_to_z}
use pawn_x.Assembler.Number.{take_name}
use pawn_x.Assembler.Emit.{skipwhitespace, returned_size}
use pawn_x.Assembler.Passes.{stripcomment, read_line, read_lines, read_instruction}
use pawn_x.Codegen.{Gen, run, when, stgwrite, count, outval, begcseg, begdseg, setline}
use pawn_x.Codegen.Lines.{lines_of, is_whole, is_clean, one_line, text_of}
use pawn_x.Codegen.Sends.{Sends, lines_size, sent_size, Sends-text, Sends-trans}
use pawn_x.Codegen.Line.{Names, Sends-line, Sends-named, Sends-comment, itoh-one_line}
use pawn_x.Codegen.Emits.{Emits, Emits-none, Emits-trans, Emits-if}

pub Sends-blank : (sent : List (List ℕ)) → Sends sent ((10 ∷ []) ∷ sent) 0
unfolding is_clean sent_size is_whole lines_of read_lines read_line stripcomment skipwhitespace
    read_instruction take_name findopcode search stricmp name_at opcodelist codes_a_to_i
    codes_j_to_o codes_p_to_z returned_size lines_size Names
Sends-blank sent = Sends-text sent (10 ∷ []) 0 refl

code_Names : Names (codes "CODE ") 0
unfolding is_clean sent_size is_whole lines_of read_lines read_line stripcomment skipwhitespace
    read_instruction take_name findopcode search stricmp name_at opcodelist codes_a_to_i
    codes_j_to_o codes_p_to_z returned_size lines_size Names
code_Names = (_, λ ps. refl, λ ps. refl)

data_Names : Names (codes "DATA ") 0
unfolding is_clean sent_size is_whole lines_of read_lines read_line stripcomment skipwhitespace
    read_instruction take_name findopcode search stricmp name_at opcodelist codes_a_to_i
    codes_j_to_o codes_p_to_z returned_size lines_size Names
data_Names = (_, λ ps. refl, λ ps. refl)

break_Names : Names (codes "\tbreak\t") 4
unfolding is_clean sent_size is_whole lines_of read_lines read_line stripcomment skipwhitespace
    read_instruction take_name findopcode search stricmp name_at opcodelist codes_a_to_i
    codes_j_to_o codes_p_to_z returned_size lines_size Names
break_Names = (_, λ ps. refl, λ ps. refl)

pub proc_Names : Names (codes "\tproc\t") 4
unfolding is_clean sent_size is_whole lines_of read_lines read_line stripcomment skipwhitespace
    read_instruction take_name findopcode search stricmp name_at opcodelist codes_a_to_i
    codes_j_to_o codes_p_to_z returned_size lines_size Names
proc_Names = (_, λ ps. refl, λ ps. refl)

Sends-segment :
    (name : List ℕ) (fcurrent address : ℕ) (sent : List (List ℕ))
    → Names name 0
    → is_clean name ≡ true
    → Sends sent
        ((10 ∷ [])
          ∷ (itoh address ∷ (codes "\t; " ∷ (itoh fcurrent ∷ (name ∷ ((10 ∷ []) ∷ sent))))))
        0
unfolding one_line
Sends-segment name fcurrent address sent found clean = Sends-trans sent _ _ 0 0 (Sends-blank sent) (
    Sends-named ((10 ∷ []) ∷ sent) (itoh address ∷ codes "\t; " ∷ itoh fcurrent ∷ []) name 0 found
      clean (itoh-one_line address, (refl, (itoh-one_line fcurrent, tt))))

pub Emits-begcseg : (g : Gen) → Emits g (begcseg g)
unfolding begcseg run is_clean Emits
Emits-begcseg g =
    Emits-if _ g _ g
      (0, (Sends-segment (codes "CODE ") g.fcurrent g.code_idx g.sent code_Names refl, omega arith))
      (Emits-none g)

pub Emits-begdseg : (g : Gen) → Emits g (begdseg g)
unfolding begdseg run is_clean Emits
Emits-begdseg g =
    Emits-if _ g _ g
      (
        0,
        (
          Sends-segment (codes "DATA ") g.fcurrent ((g.glb_declared - g.litidx) * 4) g.sent
              data_Names refl,
          omega arith,
        ),
      )
      (Emits-none g)

Emits-break :
    (v : ℕ) (g : Gen) → Emits g (run (stgwrite "\tbreak\t; " ∷ outval v true ∷ count 4 ∷ []) g)
unfolding run is_clean Emits one_line text_of
Emits-break v g = (
  4,
  (
    Sends-line g.sent (itoh v ∷ codes "\tbreak\t; " ∷ []) (codes "\tbreak\t") []
        (codes "; " ++ itoh v) 4 break_Names refl refl (itoh-one_line v) refl,
    refl,
  ),
)

Emits-line_comment : (g : Gen) → Emits g (run (stgwrite "\t; line " ∷ outval g.fline true ∷ []) g)
unfolding run is_clean Emits one_line text_of
Emits-line_comment g = (
  0,
  (
    Sends-comment g.sent (itoh g.fline ∷ codes "\t; line " ∷ []) (codes " line " ++ itoh g.fline)
        refl (itoh-one_line g.fline),
    omega arith,
  ),
)

pub Emits-setline : (chkbounds : Bool) (g : Gen) → Emits g (setline chkbounds g)
unfolding setline
Emits-setline chkbounds g =
    let x = when g.asmfile (run (stgwrite "\t; line " ∷ outval g.fline true ∷ [])) g in
    let first = Emits-if g.asmfile g _ g (Emits-line_comment g) (Emits-none g) in
    Emits-if (g.symbolic || (chkbounds && g.chkbounds)) g _ x
      (Emits-trans g x _ first (Emits-break g.code_idx x)) first
