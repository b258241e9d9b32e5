-- ===== src/Codegen/Frame.antt =====
-- The code generator (sc4.c) on the frame, the stack, the heap and addresses: `getfrm` to `addconst`,
-- with `outinstr` and `writetrailer`. `none` is an assertion that fails. PAWN_CELL_SIZE is 32 and
-- sCHARBITS is 8.
use pawn_x.Prelude.{
  ℕ, ◌+◌, true, ◌&&◌, not, ◌==◌, if◌then◌else◌, List, [], ◌∷◌, Option, none, some, length,
}
use pawn_x.Prelude.Chars.{itoh}
use pawn_x.Cell.{is_neg}
use pawn_x.Codegen.{Gen, opcodes, opargs, run, put, stgwrite, count, when, outval}
use pawn_x.Codegen.Control.{with_number}

unfoldable pub getfrm : Gen → Gen
unfolding run
getfrm g = run (stgwrite "\tlctrl 5\n" ∷ count (opcodes 1 + opargs 1) ∷ []) g

-- `delta` is the cell of an `int`.
unfoldable pub modstk : ℕ → Gen → Gen
unfolding run
modstk delta g = when (not (delta == 0)) (with_number "\tstack " delta) g

unfoldable pub setstk : ℕ → Gen → Option Gen
unfolding run
setstk value g =
    if not (is_neg value) && not (value == 0)
    then none
    else some (
        run
          (stgwrite "\tlctrl 5\n"
            ∷ when (is_neg value) (with_number "\tadd.c " value)
            ∷ stgwrite "\tsctrl 4\n"
            ∷ count (opcodes 2 + opargs 2)
            ∷ [])
          g)

unfoldable pub modheap : ℕ → Gen → Gen
unfolding run
modheap delta g = when (not (delta == 0)) (with_number "\theap " delta) g

unfoldable pub setheap_pri : Gen → Gen
unfolding run
setheap_pri g =
    run
      (stgwrite "\theap "
        ∷ outval 4 true
        ∷ stgwrite "\tstor.i\n"
        ∷ stgwrite "\tmove.pri\n"
        ∷ count (opcodes 3 + opargs 1)
        ∷ [])
      g

unfoldable pub setheap : ℕ → Gen → Gen
unfolding run setheap_pri
setheap value g = run (with_number "\tconst.pri " value ∷ setheap_pri ∷ []) g

unfoldable pub cell2addr : Gen → Gen
unfolding run
cell2addr g = run (stgwrite "\tshl.c.pri 2\n" ∷ count (opcodes 1 + opargs 1) ∷ []) g

unfoldable pub cell2addr_alt : Gen → Gen
unfolding run
cell2addr_alt g = run (stgwrite "\tshl.c.alt 2\n" ∷ count (opcodes 1 + opargs 1) ∷ []) g

unfoldable pub addr2cell : Gen → Gen
unfolding run
addr2cell g = run (stgwrite "\tshr.c.pri 2\n" ∷ count (opcodes 1 + opargs 1) ∷ []) g

-- Nothing where a character has the size of a byte.
abbrev pub char2addr : Gen → Gen
char2addr g = g

unfoldable pub charalign : Gen → Gen
unfolding run
charalign g = with_number "\talign.pri " 1 g

unfoldable pub addconst : ℕ → Gen → Gen
unfolding run
addconst value g = when (not (value == 0)) (with_number "\tadd.c " value) g

-- `emit_outval`
pub data Outval : Type 0 where
  label number : ℕ → Outval
  function : List ℕ → Outval

abbrev pub outparam : Outval → Gen → Gen
outparam (label v) g = run (stgwrite " " ∷ stgwrite "l." ∷ put (itoh v) ∷ []) g
outparam (number v) g = run (stgwrite " " ∷ put (itoh v) ∷ []) g
outparam (function name) g = run (stgwrite " " ∷ stgwrite "." ∷ put name ∷ []) g

unfoldable pub outparams : List Outval → Gen → Gen
unfolding run
outparams [] g = g
outparams (p ∷ ps) g = outparams ps (outparam p g)

unfoldable pub outinstr : List ℕ → List Outval → Gen → Gen
unfolding run outparams
outinstr name params g =
    run
      (stgwrite "\t"
        ∷ put name
        ∷ outparams params
        ∷ stgwrite "\n"
        ∷ count (opcodes 1 + opargs (length params))
        ∷ [])
      g
