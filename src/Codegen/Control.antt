-- ===== src/Codegen/Control.antt =====
-- The code generator (sc4.c) on calls, jumps, the stack and the heap: `alignframe`, `moveto1` and what
-- follows, to `addconst`, with `jmp_ne0`, `jmp_eq0`, `outinstr` and the end of the file. `none` is an
-- assertion that fails.
use Prim.Native.String.{String}
use pawn_x.Prelude.{
  ℕ, zero, suc, ◌+◌, ◌*◌, ◌/◌, ◌%◌, Bool, true, false, ◌&&◌, ◌||◌, not, ◌==◌, if◌then◌else◌, List,
  [], ◌∷◌, Option, none, some,
}
use pawn_x.Prelude.Chars.{is_upper, is_lower}
use pawn_x.Cell.{neg, is_neg}
use pawn_x.Codegen.{Symbol, Gen, opcodes, opargs, run, put, stgwrite, count, when, outval}

-- An opcode without a parameter, and one with a number behind it.
abbrev pub opcode : String → Gen → Gen
opcode line g = run (stgwrite line ∷ count (opcodes 1) ∷ []) g

abbrev pub with_number : String → ℕ → Gen → Gen
with_number name val g = run (stgwrite name ∷ outval val true ∷ count (opcodes 1 + opargs 1) ∷ []) g

-- The bits that are set, of so many.
unfoldable pub bits : ℕ → ℕ → ℕ
bits zero v = 0
bits (suc n) v = v % 2 + bits n (v / 2)

unfoldable pub alignframe : ℕ → Gen → Option Gen
unfolding run bits
alignframe numbytes g =
    if not (bits 32 numbytes == 1)
    then none
    else some (
        run
          (stgwrite "\tlctrl 4\n"
            ∷ stgwrite "\tconst.alt "
            ∷ outval (neg numbytes) true
            ∷ stgwrite "\tand\n"
            ∷ stgwrite "\tsctrl 4\n"
            ∷ stgwrite "\tsctrl 5\n"
            ∷ count (opcodes 5 + opargs 4)
            ∷ [])
          g)

unfoldable pub moveto1 : Gen → Gen
unfolding run
moveto1 g = run (stgwrite "\tmove.pri\n" ∷ count (opcodes 1 + opargs 0) ∷ []) g

unfoldable pub pushval : ℕ → Gen → Gen
unfolding run
pushval val g = with_number "\tpush.c " val g

unfoldable pub swap1 : Gen → Gen
unfolding run
swap1 g = opcode "\tswap.pri\n" g

unfoldable pub ffswitch : ℕ → Gen → Gen
unfolding run
ffswitch label g = with_number "\tswitch " label g

unfoldable pub ffcase : ℕ → List ℕ → Bool → Gen → Gen
unfolding run
ffcase value labelname newtable g =
    run
      (when newtable (opcode "\tcasetbl\n")
        ∷ stgwrite "\tcase "
        ∷ outval value false
        ∷ stgwrite " "
        ∷ put labelname
        ∷ stgwrite "\n"
        ∷ count (opcodes 0 + opargs 2)
        ∷ [])
      g

unfoldable pub ffcaserange : ℕ → ℕ → List ℕ → ℕ → Gen → Gen
unfolding run
ffcaserange lo hi bodyname skiplabel g =
    run
      (stgwrite "\tconst.alt "
        ∷ outval lo true
        ∷ stgwrite "\tjsless "
        ∷ outval skiplabel true
        ∷ stgwrite "\tconst.alt "
        ∷ outval hi true
        ∷ stgwrite "\tjsgrtr "
        ∷ outval skiplabel true
        ∷ stgwrite "\tjump "
        ∷ put bodyname
        ∷ stgwrite "\n"
        ∷ count (opcodes 5 + opargs 5)
        ∷ [])
      g

-- `isalpha(c) || c=='_' || c==sc_ctrlchar`, with `\` for `sc_ctrlchar`.
abbrev pub is_plain_start : List ℕ → Bool
is_plain_start [] = false
is_plain_start (c ∷ s) = is_upper c || (is_lower c || ((c == b'_') || (c == 92)))

-- `ffcall`; the second part is the symbol's address behind it, which a first call sets.
abbrev pub native_addr : Symbol → Gen → ℕ × Gen
native_addr sym g =
    if g.writing && (not sym.read && not (is_neg sym.addr))
    then (g.ntv_funcid, record g { ntv_funcid = g.ntv_funcid + 1 })
    else (sym.addr, g)

abbrev pub call_native : Symbol → ℕ → ℕ → Gen → Gen
call_native sym addr numargs g =
    run
      (stgwrite "\tsysreq.c "
        ∷ outval addr false
        ∷ when g.asmfile (run (stgwrite "\t; " ∷ put sym.symname ∷ []))
        ∷ stgwrite "\n"
        ∷ stgwrite "\tstack "
        ∷ outval ((numargs + 1) * 4) true
        ∷ count (opcodes 2 + opargs 2)
        ∷ [])
      g

abbrev pub is_some : Option (List ℕ) → Bool
is_some none = false
is_some (some label) = true

abbrev pub call_function : Symbol → Option (List ℕ) → Gen → Gen
call_function sym label g =
    run
      (stgwrite "\tcall "
        ∷ elim label [
          | some name ↦ run (stgwrite "l." ∷ put name ∷ [])
          | none ↦ run (stgwrite "." ∷ put sym.name ∷ [])
        ]
        ∷ when (g.asmfile && (is_some label || not (is_plain_start sym.name)))
            (run (stgwrite "\t; " ∷ put sym.symname ∷ []))
        ∷ stgwrite "\n"
        ∷ count (opcodes 1 + opargs 1)
        ∷ [])
      g

abbrev pub native_call : Symbol → ℕ → Gen → Gen × ℕ
native_call sym numargs g =
    let (addr, g') = native_addr sym g in (call_native sym addr numargs g', addr)

unfoldable pub ffcall : Symbol → Option (List ℕ) → ℕ → Gen → Option (Gen × ℕ)
unfolding run
ffcall sym label numargs g =
    if sym.native
    then if is_some label then none else some (native_call sym numargs g)
    else some (call_function sym label g, sym.addr)

unfoldable pub ffret : Bool → Gen → Gen
unfolding run
ffret remparams g = opcode (if remparams then "\tretn\n" else "\tret\n") g

unfoldable pub ffabort : ℕ → Gen → Gen
unfolding run
ffabort reason g = with_number "\thalt " reason g

unfoldable pub ffbounds : ℕ → Gen → Gen
unfolding run
ffbounds size g = when g.chkbounds (with_number "\tbounds " size) g

unfoldable pub jumplabel : ℕ → Gen → Gen
unfolding run
jumplabel number g = with_number "\tjump " number g

unfoldable pub jmp_ne0 : ℕ → Gen → Gen
unfolding run
jmp_ne0 number g = with_number "\tjnz " number g

unfoldable pub jmp_eq0 : ℕ → Gen → Gen
unfolding run
jmp_eq0 number g = with_number "\tjzer " number g
