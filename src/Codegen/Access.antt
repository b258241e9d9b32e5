-- ===== src/Codegen/Access.antt =====
-- The code generator (sc4.c) on variables: `lifted_local` to `ldconst`, `inc` and `dec`. `none` is an
-- assertion that fails.
use Prim.Native.String.{String}
use pawn_x.Prelude.{
  ◌+◌, ◌-◌, Bool, true, false, ◌&&◌, ◌||◌, not, if◌then◌else◌, [], ◌∷◌, Option, none, some,
}
use pawn_x.Codegen.{
  Ident, variable, reference, array, refarray, arraycell, arraychar, Class, global, local, static,
  Symbol, Value, read, Gen, opcodes, opargs, run, stgwrite, count, error, when, markusage, outval,
}

-- `regid`
pub data Reg : Type 0 where
  pri alt : Reg

abbrev pub is_local : Class → Bool
is_local global = false
is_local local = true
is_local static = false

abbrev pub is_reference : Ident → Bool
is_reference variable = false
is_reference reference = true
is_reference array = false
is_reference refarray = false
is_reference arraycell = false
is_reference arraychar = false

abbrev pub is_refarray : Ident → Bool
is_refarray variable = false
is_refarray reference = false
is_refarray array = false
is_refarray refarray = true
is_refarray arraycell = false
is_refarray arraychar = false

abbrev pub is_alt : Reg → Bool
is_alt pri = false
is_alt alt = true

abbrev pub lifted_local : Symbol → Bool
lifted_local sym = sym.lifted || sym.captured

abbrev pub across_suspend : Symbol → Gen → Bool
across_suspend sym g =
    g.async_suspended
    && (is_local sym.vclass
        && ((is_refarray sym.ident || is_reference sym.ident) && not sym.lifted))

-- `if (async_param_used_across_suspend(sym)) error(268);`
abbrev pub check_suspend : Symbol → Gen → Gen
check_suspend sym g = when (across_suspend sym g) (error 268) g

unfoldable pub lifted_slotaddr_pri : Symbol → Gen → Gen
unfolding run
lifted_slotaddr_pri sym g =
    run
      (stgwrite "\tload.s.pri "
        ∷ outval (if sym.captured then g.inlinelink else g.genlocalsbase) true
        ∷ count (opcodes 1 + opargs 1)
        ∷ stgwrite "\tadd.c "
        ∷ outval sym.addr true
        ∷ count (opcodes 1 + opargs 1)
        ∷ [])
      g

-- Either of two opcodes, with the address behind it: the first for a local symbol.
abbrev pub at_addr : String → String → Symbol → Gen → Gen
at_addr stack fixed sym g =
    outval sym.addr true (stgwrite (if is_local sym.vclass then stack else fixed) g)

unfoldable pub rvalue : Value → Gen → Option Gen
unfolding run lifted_slotaddr_pri
rvalue lval g = elim (lval.ident) [
  | arraycell ↦ some (run (stgwrite "\tload.i\n" ∷ count (opcodes 1) ∷ []) g)
  | arraychar ↦
      some (run (stgwrite "\tlodb.i " ∷ outval 1 true ∷ count (opcodes 1 + opargs 1) ∷ []) g)
  | reference ↦ elim (lval.sym) [
    | none ↦ none
    | some sym ↦
        let checked = when sym.captured (error 98) (check_suspend sym g) in
        if not (is_local sym.vclass)
        then none
        else if sym.lifted
        then some (
            run
              (lifted_slotaddr_pri sym
                ∷ stgwrite "\tload.i\n"
                ∷ count (opcodes 1)
                ∷ stgwrite "\tload.i\n"
                ∷ count (opcodes 1)
                ∷ markusage sym read
                ∷ [])
              checked)
        else some (
            run
              (at_addr "\tlref.s.pri " "\tlref.pri " sym
                ∷ markusage sym read
                ∷ count (opcodes 1 + opargs 1)
                ∷ [])
              checked)
  ]
  | _ ↦ elim (lval.sym) [
    | none ↦ none
    | some sym ↦
        if lifted_local sym
        then some (
            run
              (lifted_slotaddr_pri sym
                ∷ stgwrite "\tload.i\n"
                ∷ count (opcodes 1)
                ∷ markusage sym read
                ∷ [])
              g)
        else some (
            run
              (at_addr "\tload.s.pri " "\tload.pri " sym
                ∷ markusage sym read
                ∷ count (opcodes 1 + opargs 1)
                ∷ [])
              g)
  ]
]

unfoldable pub dereference : Gen → Gen
unfolding run
dereference g = run (stgwrite "\tload.i\n" ∷ count (opcodes 1) ∷ []) g

unfoldable pub pushreg : Reg → Gen → Gen
unfolding run
pushreg reg g =
    let pushed =
      run
        (stgwrite (elim reg [ pri ↦ "\tpush.pri\n" | alt ↦ "\tpush.alt\n" ])
          ∷ count (opcodes 1)
          ∷ [])
        g in
    record pushed { exprtemp = pushed.exprtemp + 1 }

-- `if (pc_exprtemp>0) pc_exprtemp--;`
unfoldable pub popreg : Reg → Gen → Gen
unfolding run
popreg reg g =
    let popped =
      run
        (stgwrite (elim reg [ pri ↦ "\tpop.pri\n" | alt ↦ "\tpop.alt\n" ]) ∷ count (opcodes 1) ∷ [])
        g in
    record popped { exprtemp = popped.exprtemp - 1 }

-- What `address` does for a lifted symbol behind the computation in PRI.
abbrev pub to_reg : Reg → (Gen → Gen) → Gen → Gen
to_reg reg compute g =
    run
      (when (is_alt reg) (pushreg pri)
        ∷ compute
        ∷ when (is_alt reg) (run (stgwrite "\tmove.alt\n" ∷ count (opcodes 1) ∷ popreg pri ∷ []))
        ∷ [])
      g

unfoldable pub address : Symbol → Reg → Gen → Gen
unfolding run lifted_slotaddr_pri pushreg popreg
address sym reg g =
    let checked = when (sym.captured && is_reference sym.ident) (error 98) (check_suspend sym g) in
    if is_reference sym.ident && sym.lifted
    then markusage sym read (
        to_reg reg (run (lifted_slotaddr_pri sym ∷ stgwrite "\tload.i\n" ∷ count (opcodes 1) ∷ []))
          checked)
    else if lifted_local sym
    then markusage sym read (to_reg reg (lifted_slotaddr_pri sym) checked)
    else run
        ((if is_refarray sym.ident || is_reference sym.ident
            then stgwrite (if is_alt reg then "\tload.s.alt " else "\tload.s.pri ")
            else if is_alt reg
            then stgwrite (if is_local sym.vclass then "\taddr.alt " else "\tconst.alt ")
            else stgwrite (if is_local sym.vclass then "\taddr.pri " else "\tconst.pri "))
          ∷ outval sym.addr true
          ∷ markusage sym read
          ∷ count (opcodes 1 + opargs 1)
          ∷ [])
        checked
