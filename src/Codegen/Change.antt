-- ===== src/Codegen/Change.antt =====
-- `inc` and `dec` of the code generator (sc4.c), which differ in the instructions that count. `none` is
-- an assertion that fails.
use pawn_x.Prelude.{◌+◌, true, ◌&&◌, if◌then◌else◌, [], ◌∷◌, Option, none, some}
use pawn_x.Codegen.{
  reference, arraycell, arraychar, Symbol, Value, written, Gen, opcodes, opargs, run, stgwrite,
  count, error, when, markusage, outval,
}
use pawn_x.Codegen.Access.{is_local, lifted_local, lifted_slotaddr_pri, at_addr}

-- `if (pc_inline_const && ...) error(22);` and `markusage(sym,uWRITTEN)`, for a symbol that is there.
abbrev pub begin_change : Option Symbol → Gen → Gen
begin_change none g = g
begin_change (some sym) g =
    markusage sym written (when (g.inline_const && sym.captured) (error 22) g)

-- An array character, a reference and a lifted local in `inc`.
abbrev pub inc_char : Gen → Gen
inc_char g =
    run
      (stgwrite "\tpush.pri\n"
        ∷ stgwrite "\tpush.alt\n"
        ∷ stgwrite "\tmove.alt\n"
        ∷ stgwrite "\tlodb.i "
        ∷ outval 1 true
        ∷ stgwrite "\tinc.pri\n"
        ∷ stgwrite "\tstrb.i "
        ∷ outval 1 true
        ∷ stgwrite "\tpop.alt\n"
        ∷ stgwrite "\tpop.pri\n"
        ∷ count (opcodes 8 + opargs 2)
        ∷ [])
      g

abbrev pub inc_reference : Symbol → Gen → Gen
inc_reference sym g =
    run
      (stgwrite "\tpush.pri\n"
        ∷ at_addr "\tlref.s.pri " "\tlref.pri " sym
        ∷ stgwrite "\tinc.pri\n"
        ∷ at_addr "\tsref.s.pri " "\tsref.pri " sym
        ∷ stgwrite "\tpop.pri\n"
        ∷ count (opcodes 5 + opargs 2)
        ∷ [])
      g

abbrev pub inc_lifted : Symbol → Gen → Gen
inc_lifted sym g =
    run
      (stgwrite "\tpush.pri\n"
        ∷ stgwrite "\tpush.alt\n"
        ∷ count (opcodes 2)
        ∷ lifted_slotaddr_pri sym
        ∷ stgwrite "\tmove.alt\n"
        ∷ stgwrite "\tload.i\n"
        ∷ stgwrite "\tinc.pri\n"
        ∷ stgwrite "\tstor.i\n"
        ∷ stgwrite "\tpop.alt\n"
        ∷ stgwrite "\tpop.pri\n"
        ∷ count (opcodes 6)
        ∷ [])
      g

unfoldable pub inc : Value → Gen → Option Gen
unfolding run lifted_slotaddr_pri
inc lval g = elim (lval.ident) [
  | arraycell ↦
      some (run (stgwrite "\tinc.i\n" ∷ count (opcodes 1) ∷ []) (begin_change (lval.sym) g))
  | arraychar ↦ some (inc_char (begin_change (lval.sym) g))
  | reference ↦ elim (lval.sym) [
    | none ↦ none
    | some sym ↦
        if is_local sym.vclass then some (inc_reference sym (begin_change (some sym) g)) else none
  ]
  | _ ↦ elim (lval.sym) [
    | none ↦ none
    | some sym ↦
        if lifted_local sym
        then some (inc_lifted sym (begin_change (some sym) g))
        else some (
            run (at_addr "\tinc.s " "\tinc " sym ∷ count (opcodes 1 + opargs 1) ∷ [])
              (begin_change (some sym) g))
  ]
]

-- An array character, a reference and a lifted local in `dec`.
abbrev pub dec_char : Gen → Gen
dec_char g =
    run
      (stgwrite "\tpush.pri\n"
        ∷ stgwrite "\tpush.alt\n"
        ∷ stgwrite "\tmove.alt\n"
        ∷ stgwrite "\tlodb.i "
        ∷ outval 1 true
        ∷ stgwrite "\tdec.pri\n"
        ∷ stgwrite "\tstrb.i "
        ∷ outval 1 true
        ∷ stgwrite "\tpop.alt\n"
        ∷ stgwrite "\tpop.pri\n"
        ∷ count (opcodes 8 + opargs 2)
        ∷ [])
      g

abbrev pub dec_reference : Symbol → Gen → Gen
dec_reference sym g =
    run
      (stgwrite "\tpush.pri\n"
        ∷ at_addr "\tlref.s.pri " "\tlref.pri " sym
        ∷ stgwrite "\tdec.pri\n"
        ∷ at_addr "\tsref.s.pri " "\tsref.pri " sym
        ∷ stgwrite "\tpop.pri\n"
        ∷ count (opcodes 5 + opargs 2)
        ∷ [])
      g

abbrev pub dec_lifted : Symbol → Gen → Gen
dec_lifted sym g =
    run
      (stgwrite "\tpush.pri\n"
        ∷ stgwrite "\tpush.alt\n"
        ∷ count (opcodes 2)
        ∷ lifted_slotaddr_pri sym
        ∷ stgwrite "\tmove.alt\n"
        ∷ stgwrite "\tload.i\n"
        ∷ stgwrite "\tdec.pri\n"
        ∷ stgwrite "\tstor.i\n"
        ∷ stgwrite "\tpop.alt\n"
        ∷ stgwrite "\tpop.pri\n"
        ∷ count (opcodes 6)
        ∷ [])
      g

unfoldable pub dec : Value → Gen → Option Gen
unfolding run lifted_slotaddr_pri
dec lval g = elim (lval.ident) [
  | arraycell ↦
      some (run (stgwrite "\tdec.i\n" ∷ count (opcodes 1) ∷ []) (begin_change (lval.sym) g))
  | arraychar ↦ some (dec_char (begin_change (lval.sym) g))
  | reference ↦ elim (lval.sym) [
    | none ↦ none
    | some sym ↦
        if is_local sym.vclass then some (dec_reference sym (begin_change (some sym) g)) else none
  ]
  | _ ↦ elim (lval.sym) [
    | none ↦ none
    | some sym ↦
        if lifted_local sym
        then some (dec_lifted sym (begin_change (some sym) g))
        else some (
            run (at_addr "\tdec.s " "\tdec " sym ∷ count (opcodes 1 + opargs 1) ∷ [])
              (begin_change (some sym) g))
  ]
]
