-- ===== src/Codegen/Perform.antt =====
-- Running calls of the code generator (sc4.c) one after the other; `none` is an assertion that fails.
use pawn_x.Prelude.{ℕ, List, [], ◌∷◌, Option, none, some, set}
use pawn_x.Codegen.{Gen, begcseg, begdseg, setline, setlabel, markexpr, startfunc, endfunc}
use pawn_x.Codegen.Call.{Call}
use pawn_x.Codegen.Access.{rvalue, dereference, address, pushreg, popreg}
use pawn_x.Codegen.Store.{store, loadreg, storereg, memcopy, ldconst, copyarray, fillarray}
use pawn_x.Codegen.Change.{inc, dec}
use pawn_x.Codegen.Control.{
  alignframe, moveto1, pushval, swap1, ffswitch, ffcase, ffcaserange, ffcall, ffret, ffabort,
  ffbounds, jumplabel, jmp_ne0, jmp_eq0,
}
use pawn_x.Codegen.Frame.{
  getfrm, modstk, setstk, modheap, setheap_pri, setheap, cell2addr, cell2addr_alt, addr2cell,
  char2addr, charalign, addconst,
}
use pawn_x.Codegen.Operator.{operator}
use pawn_x.Codegen.Emits.Called.{call_state}

unfoldable pub perform : Call → Gen → Option Gen
perform Call.begcseg g = some (begcseg g)
perform Call.begdseg g = some (begdseg g)
perform (Call.setline chkbounds) g = some (setline chkbounds g)
perform (Call.setlabel n) g = some (setlabel n g)
perform (Call.markexpr mark) g = some (markexpr mark g)
perform (Call.startfunc symname proc) g = some (startfunc symname proc g)
perform Call.endfunc g = some (endfunc g)
perform (Call.alignframe n) g = alignframe n g
perform (Call.rvalue v) g = rvalue v g
perform Call.dereference g = some (dereference g)
perform (Call.address sym reg) g = some (address sym reg g)
perform (Call.store v) g = store v g
perform (Call.loadreg addr reg) g = some (loadreg addr reg g)
perform (Call.storereg addr reg) g = some (storereg addr reg g)
perform (Call.memcopy size) g = some (memcopy size g)
perform (Call.copyarray sym size) g = copyarray sym size g
perform (Call.fillarray sym size v) g = fillarray sym size v g
perform (Call.ldconst v reg) g = some (ldconst v reg g)
perform Call.moveto1 g = some (moveto1 g)
perform (Call.pushreg reg) g = some (pushreg reg g)
perform (Call.pushval v) g = some (pushval v g)
perform (Call.popreg reg) g = some (popreg reg g)
perform Call.swap1 g = some (swap1 g)
perform (Call.ffswitch n) g = some (ffswitch n g)
perform (Call.ffcase v label table) g = some (ffcase v label table g)
perform (Call.ffcaserange lo hi body skip) g = some (ffcaserange lo hi body skip g)
perform (Call.ffcall sym label numargs) g = call_state (ffcall sym label numargs g)
perform (Call.ffret remparams) g = some (ffret remparams g)
perform (Call.ffabort reason) g = some (ffabort reason g)
perform (Call.ffbounds size) g = some (ffbounds size g)
perform (Call.jumplabel n) g = some (jumplabel n g)
perform Call.getfrm g = some (getfrm g)
perform (Call.modstk delta) g = some (modstk delta g)
perform (Call.setstk v) g = setstk v g
perform (Call.modheap delta) g = some (modheap delta g)
perform Call.setheap_pri g = some (setheap_pri g)
perform (Call.setheap v) g = some (setheap v g)
perform Call.cell2addr g = some (cell2addr g)
perform Call.cell2addr_alt g = some (cell2addr_alt g)
perform Call.addr2cell g = some (addr2cell g)
perform Call.char2addr g = some (char2addr g)
perform Call.charalign g = some (charalign g)
perform (Call.addconst v) g = some (addconst v g)
perform (Call.operator o) g = some (operator o g)
perform (Call.inc v) g = inc v g
perform (Call.dec v) g = dec v g
perform (Call.jmp_ne0 n) g = some (jmp_ne0 n g)
perform (Call.jmp_eq0 n) g = some (jmp_eq0 n g)

unfoldable pub perform_all : List Call → Gen → Option Gen
unfolding perform
perform_all [] g = some g
perform_all (c ∷ cs) g = elim (perform c g) [ none ↦ none | some g' ↦ perform_all cs g' ]

-- The label table of the assembler behind a call, with the address that `code_idx` has in front.
abbrev pub place : Call → Gen → List ℕ → List ℕ
place (Call.setlabel n) g lbltab = set lbltab n g.code_idx
place c g lbltab = lbltab

unfoldable pub label_table : List Call → Gen → List ℕ → List ℕ
unfolding perform
label_table [] g lbltab = lbltab
label_table (c ∷ cs) g lbltab = elim (perform c g) [
  | none ↦ lbltab
  | some g' ↦ label_table cs g' (place c g lbltab)
]
