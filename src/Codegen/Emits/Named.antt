-- ===== src/Codegen/Emits/Named.antt =====
-- What the functions send that write the names of variables, functions and labels (sc4.c). The names
-- are without a newline.
use pawn_x.Prelude.{ℕ, ◌≡◌, refl, Bool, true, false, List, [], ◌∷◌, ◌++◌, arith}
use pawn_x.Prelude.Chars.{codes, itoh}
use pawn_x.Assembler.{stricmp, name_at, search, findopcode}
use pawn_x.Assembler.Table.{opcodelist, codes_a_to_i, codes_j_to_o, codes_p_to_z}
use pawn_x.Assembler.Number.{take_name}
use pawn_x.Assembler.Emit.{skipwhitespace, returned_size}
use pawn_x.Assembler.Passes.{stripcomment, read_line, read_lines, read_instruction, first_pass}
use pawn_x.Codegen.{
  Gen, run, put, when, stgwrite, count, Mark, expr, parm, ldecl, markexpr, startfunc, endfunc,
}
use pawn_x.Codegen.Control.{ffcase, ffcaserange}
use pawn_x.Codegen.Lines.{lines_of, is_whole, is_clean, one_line, text_of}
use pawn_x.Codegen.Emits.Directive.{Sends-blank, proc_Names}
use pawn_x.Codegen.Writes.{Writes-line}
use pawn_x.Codegen.Sends.{Sends, lines_size, sent_size, Sends-text, Sends-trans, Steps}
use pawn_x.Codegen.Line.{
  Names, Sends-line, Sends-named, Sends-comment, itoh-one_line, one_line-text_of,
}
use pawn_x.Codegen.Plain.{Plain, Sends-plain}
use pawn_x.Codegen.Name.{Name, name, name-Names, name-is_clean}
use pawn_x.Codegen.Emits.{number, items_sent, items_size, Sends-items, Emits}

-- The names are in one line.
abbrev pub Single : List ℕ → Type 0
Single t = one_line t ≡ true

abbrev pub mark_name : Mark → List ℕ
mark_name expr = []
mark_name parm = []
mark_name (ldecl name offset) = name

pub Emits-markexpr : (mark : Mark) (g : Gen) → Single (mark_name mark) → Emits g (markexpr mark g)
unfolding is_clean sent_size is_whole lines_of read_lines read_line stripcomment skipwhitespace
    read_instruction take_name findopcode search stricmp name_at opcodelist codes_a_to_i
    codes_j_to_o codes_p_to_z returned_size lines_size Names Emits markexpr run one_line text_of
Emits-markexpr expr g e = (0, (Sends-text g.sent (codes "\t;$exp\n") 0 refl, omega arith))
Emits-markexpr parm g e = (0, (Sends-text g.sent (codes "\t;$par\n") 0 refl, omega arith))
Emits-markexpr (ldecl name offset) g e = (
  0,
  (
    Sends-comment g.sent (itoh offset ∷ codes " " ∷ name ∷ codes "\t;$lcl " ∷ [])
        (text_of (itoh offset ∷ codes " " ∷ name ∷ codes "$lcl " ∷ [])) refl
        (one_line-text_of (itoh offset ∷ codes " " ∷ name ∷ codes "$lcl " ∷ [])
          (itoh-one_line offset, (refl, (e, (refl, tt))))),
    omega arith,
  ),
)

Sends-proc : (sent : List (List ℕ)) → Sends sent ((10 ∷ []) ∷ (codes "\tproc" ∷ sent)) 4
unfolding is_clean sent_size is_whole lines_of read_lines read_line stripcomment skipwhitespace
    read_instruction take_name findopcode search stricmp name_at opcodelist codes_a_to_i
    codes_j_to_o codes_p_to_z returned_size lines_size Sends Steps first_pass text_of one_line
Sends-proc sent = (_ ∷ [], (Writes-line sent (codes "\tproc" ∷ []) _ refl refl, λ c t. refl))

-- The line of `startfunc`.
startfunc-Emits :
    (b c : Bool) (symname : List ℕ) (g : Gen)
    → Single symname
    → Emits g (
        run
          (when b (run (stgwrite "\tproc" ∷ count 4 ∷ []))
            ∷ when c (run (stgwrite "\t; " ∷ put symname ∷ []))
            ∷ stgwrite "\n"
            ∷ [])
          g)
unfolding Emits run one_line text_of is_clean
startfunc-Emits true true symname g e = (
  4,
  (
    Sends-line g.sent (symname ∷ codes "\t; " ∷ codes "\tproc" ∷ []) (codes "\tproc\t") []
        (codes "; " ++ symname) 4 proc_Names refl refl e refl,
    refl,
  ),
)
startfunc-Emits true false symname g e = (4, (Sends-proc g.sent, refl))
startfunc-Emits false true symname g e = (
  0,
  (Sends-comment g.sent (symname ∷ codes "\t; " ∷ []) (codes " " ++ symname) refl e, omega arith),
)
startfunc-Emits false false symname g e = (0, (Sends-blank g.sent, omega arith))

pub Emits-startfunc :
    (symname : List ℕ) (generateproc : Bool) (g : Gen)
    → Single symname
    → Emits g (startfunc symname generateproc g)
unfolding startfunc
Emits-startfunc symname generateproc g e = startfunc-Emits generateproc g.asmfile symname g e

pub Emits-endfunc : (g : Gen) → Emits g (endfunc g)
unfolding Emits
Emits-endfunc g = (0, (Sends-blank g.sent, omega arith))

Sends-case :
    (value : ℕ) (labelname : List ℕ) (sent : List (List ℕ))
    → Single labelname
    → Sends sent ((10 ∷ []) ∷ (labelname ∷ (codes " " ∷ (itoh value ∷ (codes "\tcase " ∷ sent))))) 8
unfolding one_line
Sends-case value labelname sent e =
    Sends-named sent (labelname ∷ codes " " ∷ itoh value ∷ []) (name Name.case) 8
      (name-Names Name.case) (name-is_clean Name.case) (e, (refl, (itoh-one_line value, tt)))

pub Emits-ffcase :
    (value : ℕ) (labelname : List ℕ) (newtable : Bool) (g : Gen)
    → Single labelname
    → Emits g (ffcase value labelname newtable g)
unfolding ffcase run Emits
Emits-ffcase value labelname true g e =
    let table = Sends-plain Plain.casetbl g.sent in
    (
      12,
      (
        Sends-trans g.sent (codes "\tcasetbl\n" ∷ g.sent) _ 4 8 table
            (Sends-case value labelname (codes "\tcasetbl\n" ∷ g.sent) e),
        omega arith,
      ),
    )
Emits-ffcase value labelname false g e = (8, (Sends-case value labelname g.sent e, refl))

Sends-jump :
    (bodyname : List ℕ) (sent : List (List ℕ))
    → Single bodyname
    → Sends sent ((10 ∷ []) ∷ (bodyname ∷ (codes "\tjump " ∷ sent))) 8
Sends-jump bodyname sent e =
    Sends-named sent (bodyname ∷ []) (name Name.jump) 8 (name-Names Name.jump)
      (name-is_clean Name.jump) (e, tt)

pub Emits-ffcaserange :
    (lo hi : ℕ) (bodyname : List ℕ) (skiplabel : ℕ) (g : Gen)
    → Single bodyname
    → Emits g (ffcaserange lo hi bodyname skiplabel g)
unfolding ffcaserange run Emits items_sent items_size
Emits-ffcaserange lo hi bodyname skiplabel g e =
    let tests =
      number Name.const_alt lo
      ∷ number Name.jsless skiplabel
      ∷ number Name.const_alt hi
      ∷ number Name.jsgrtr skiplabel
      ∷ [] in
    let sent = items_sent tests g.sent in
    (
      40,
      (
        Sends-trans g.sent sent _ 32 8 (Sends-items tests g.sent) (Sends-jump bodyname sent e),
        refl,
      ),
    )
