-- ===== src/Codegen/Operator.antt =====
-- The operators of the code generator (sc4.c), `os_mult` to `nooperation`: a data type with the name
-- of each function, and what the function of that name does.
use pawn_x.Prelude.{[], ◌∷◌}
use pawn_x.Codegen.{Gen, opcodes, run, stgwrite, count}

pub data Operator : Type 0 where
  os_mult os_div os_mod ob_add ob_sub ob_sal os_sar ou_sar ob_or ob_xor ob_and ob_eq ob_ne
        relop_prefix relop_suffix os_lt os_le os_gt os_ge lneg neg invert nooperation :
      Operator

unfoldable pub operator : Operator → Gen → Gen
unfolding run
operator os_mult g = run (stgwrite "\tsmul\n" ∷ count (opcodes 1) ∷ []) g
operator os_div g = run (stgwrite "\tsdiv.alt\n" ∷ count (opcodes 1) ∷ []) g
operator os_mod g =
    run (stgwrite "\tsdiv.alt\n" ∷ stgwrite "\tmove.pri\n" ∷ count (opcodes 2) ∷ []) g
operator ob_add g = run (stgwrite "\tadd\n" ∷ count (opcodes 1) ∷ []) g
operator ob_sub g = run (stgwrite "\tsub.alt\n" ∷ count (opcodes 1) ∷ []) g
operator ob_sal g = run (stgwrite "\txchg\n" ∷ stgwrite "\tshl\n" ∷ count (opcodes 2) ∷ []) g
operator os_sar g = run (stgwrite "\txchg\n" ∷ stgwrite "\tsshr\n" ∷ count (opcodes 2) ∷ []) g
operator ou_sar g = run (stgwrite "\txchg\n" ∷ stgwrite "\tshr\n" ∷ count (opcodes 2) ∷ []) g
operator ob_or g = run (stgwrite "\tor\n" ∷ count (opcodes 1) ∷ []) g
operator ob_xor g = run (stgwrite "\txor\n" ∷ count (opcodes 1) ∷ []) g
operator ob_and g = run (stgwrite "\tand\n" ∷ count (opcodes 1) ∷ []) g
operator ob_eq g = run (stgwrite "\teq\n" ∷ count (opcodes 1) ∷ []) g
operator ob_ne g = run (stgwrite "\tneq\n" ∷ count (opcodes 1) ∷ []) g
operator relop_prefix g =
    run (stgwrite "\tpush.pri\n" ∷ stgwrite "\tmove.pri\n" ∷ count (opcodes 2) ∷ []) g
operator relop_suffix g =
    run
      (stgwrite "\tswap.alt\n"
        ∷ stgwrite "\tand\n"
        ∷ stgwrite "\tpop.alt\n"
        ∷ count (opcodes 3)
        ∷ [])
      g
operator os_lt g = run (stgwrite "\txchg\n" ∷ stgwrite "\tsless\n" ∷ count (opcodes 2) ∷ []) g
operator os_le g = run (stgwrite "\txchg\n" ∷ stgwrite "\tsleq\n" ∷ count (opcodes 2) ∷ []) g
operator os_gt g = run (stgwrite "\txchg\n" ∷ stgwrite "\tsgrtr\n" ∷ count (opcodes 2) ∷ []) g
operator os_ge g = run (stgwrite "\txchg\n" ∷ stgwrite "\tsgeq\n" ∷ count (opcodes 2) ∷ []) g
operator lneg g = run (stgwrite "\tnot\n" ∷ count (opcodes 1) ∷ []) g
operator neg g = run (stgwrite "\tneg\n" ∷ count (opcodes 1) ∷ []) g
operator invert g = run (stgwrite "\tinvert\n" ∷ count (opcodes 1) ∷ []) g
operator nooperation g = run (stgwrite "\tnop\n" ∷ count (opcodes 1) ∷ []) g
