-- ===== src/Codegen/Store.antt =====
-- The code generator (sc4.c) on what changes variables: `store` to `fillarray`, `inc` and `dec`. `none`
-- is an assertion that fails.
use pawn_x.Prelude.{ℕ, ◌+◌, true, ◌&&◌, not, ◌==◌, if◌then◌else◌, [], ◌∷◌, Option, none, some}
use pawn_x.Cell.{slt}
use pawn_x.Codegen.{
  reference, arraycell, arraychar, Symbol, Value, written, Gen, opcodes, opargs, run, stgwrite,
  count, error, when, markusage, outval,
}
use pawn_x.Codegen.Access.{
  Reg, pri, alt, is_local, is_refarray, lifted_local, check_suspend, lifted_slotaddr_pri, at_addr,
}

unfoldable pub store : Value → Gen → Option Gen
unfolding run lifted_slotaddr_pri
store lval g = elim (lval.ident) [
  | arraycell ↦ some (run (stgwrite "\tstor.i\n" ∷ count (opcodes 1) ∷ []) g)
  | arraychar ↦
      some (run (stgwrite "\tstrb.i " ∷ outval 1 true ∷ count (opcodes 1 + opargs 1) ∷ []) g)
  | reference ↦ elim (lval.sym) [
    | none ↦ none
    | some sym ↦
        let checked = when sym.captured (error 98) (check_suspend sym g) in
        if sym.lifted
        then some (
            run
              (stgwrite "\tpush.alt\n"
                ∷ stgwrite "\tpush.pri\n"
                ∷ count (opcodes 2)
                ∷ lifted_slotaddr_pri sym
                ∷ stgwrite "\tload.i\n"
                ∷ stgwrite "\tmove.alt\n"
                ∷ stgwrite "\tpop.pri\n"
                ∷ stgwrite "\tstor.i\n"
                ∷ stgwrite "\tpop.alt\n"
                ∷ count (opcodes 5)
                ∷ [])
              checked)
        else some (
            run (at_addr "\tsref.s.pri " "\tsref.pri " sym ∷ count (opcodes 1 + opargs 1) ∷ [])
              checked)
  ]
  | _ ↦ elim (lval.sym) [
    | none ↦ none
    | some sym ↦
        let marked = markusage sym written (when (g.inline_const && sym.captured) (error 22) g) in
        if lifted_local sym
        then some (
            run
              (stgwrite "\tpush.alt\n"
                ∷ stgwrite "\tpush.pri\n"
                ∷ count (opcodes 2)
                ∷ lifted_slotaddr_pri sym
                ∷ stgwrite "\tmove.alt\n"
                ∷ stgwrite "\tpop.pri\n"
                ∷ stgwrite "\tstor.i\n"
                ∷ stgwrite "\tpop.alt\n"
                ∷ count (opcodes 4)
                ∷ [])
              marked)
        else some (
            run (at_addr "\tstor.s.pri " "\tstor.pri " sym ∷ count (opcodes 1 + opargs 1) ∷ [])
              marked)
  ]
]

unfoldable pub loadreg : ℕ → Reg → Gen → Gen
unfolding run
loadreg address reg g =
    run
      (stgwrite (elim reg [ pri ↦ "\tload.pri " | alt ↦ "\tload.alt " ])
        ∷ outval address true
        ∷ count (opcodes 1 + opargs 1)
        ∷ [])
      g

unfoldable pub storereg : ℕ → Reg → Gen → Gen
unfolding run
storereg address reg g =
    run
      (stgwrite (elim reg [ pri ↦ "\tstor.pri " | alt ↦ "\tstor.alt " ])
        ∷ outval address true
        ∷ count (opcodes 1 + opargs 1)
        ∷ [])
      g

unfoldable pub memcopy : ℕ → Gen → Gen
unfolding run
memcopy size g = run (stgwrite "\tmovs " ∷ outval size true ∷ count (opcodes 1 + opargs 1) ∷ []) g

unfoldable pub ldconst : ℕ → Reg → Gen → Gen
unfolding run
ldconst val pri g =
    if val == 0
    then run (stgwrite "\tzero.pri\n" ∷ count (opcodes 1) ∷ []) g
    else run (stgwrite "\tconst.pri " ∷ outval val true ∷ count (opcodes 1 + opargs 1) ∷ []) g
ldconst val alt g =
    if val == 0
    then run (stgwrite "\tzero.alt\n" ∷ count (opcodes 1) ∷ []) g
    else run (stgwrite "\tconst.alt " ∷ outval val true ∷ count (opcodes 1 + opargs 1) ∷ []) g

-- The address of a lifted array in ALT, with PRI kept; `copyarray` and `fillarray` have this alike.
abbrev pub lifted_target : Symbol → Gen → Gen
lifted_target sym g =
    run
      (stgwrite "\tpush.pri\n"
        ∷ count (opcodes 1)
        ∷ lifted_slotaddr_pri sym
        ∷ stgwrite "\tmove.alt\n"
        ∷ stgwrite "\tpop.pri\n"
        ∷ count (opcodes 2)
        ∷ markusage sym written
        ∷ [])
      g

-- The address of another array in ALT.
abbrev pub plain_target : Symbol → Gen → Gen
plain_target sym g =
    run
      (stgwrite (
          if is_refarray sym.ident
          then "\tload.s.alt "
          else if is_local sym.vclass
          then "\taddr.alt "
          else "\tconst.alt ")
        ∷ outval sym.addr true
        ∷ markusage sym written
        ∷ [])
      g

unfoldable pub copyarray : Symbol → ℕ → Gen → Option Gen
unfolding run lifted_slotaddr_pri memcopy
copyarray sym size g =
    if lifted_local sym
    then some (memcopy size (lifted_target sym g))
    else if is_refarray sym.ident && not (is_local sym.vclass)
    then none
    else some (run (plain_target sym ∷ count (opcodes 1 + opargs 1) ∷ memcopy size ∷ []) g)

-- `size` is a cell; `size>0` is tested as a signed number.
unfoldable pub fillarray : Symbol → ℕ → ℕ → Gen → Option Gen
unfolding run lifted_slotaddr_pri ldconst
fillarray sym size value g =
    let loaded = ldconst value pri g in
    let filled = run (stgwrite "\tfill " ∷ outval size true ∷ []) in
    if not (slt 0 size)
    then none
    else if lifted_local sym
    then some (run (lifted_target sym ∷ filled ∷ count (opcodes 1 + opargs 1) ∷ []) loaded)
    else if is_refarray sym.ident && not (is_local sym.vclass)
    then none
    else some (run (plain_target sym ∷ filled ∷ count (opcodes 2 + opargs 2) ∷ []) loaded)
