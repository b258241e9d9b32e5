-- ===== src/Machine/Opcodes.antt =====
-- The opcodes of compiler/source/amx/amx.c: the enumeration OPCODE, with the operands that each case
-- of `amx_Exec` reads by GETPARAM and SKIPPARAM.
use mathlib.Core.List.{◌++◌}
use pawn_x.Prelude.{ℕ, List, [], ◌∷◌}
use pawn_x.Machine.Load.{Load}
use pawn_x.Machine.Store.{Store}
use pawn_x.Machine.Stack.{Stack}
use pawn_x.Machine.Jump.{Jump}
use pawn_x.Machine.Arith.{Arith}
use pawn_x.Machine.Compare.{Compare}
use pawn_x.Machine.Block.{Block}
use pawn_x.Machine.Sys.{Sys}
use pawn_x.Machine.Macro.{Macro}
use pawn_x.Machine.Instr.{Instr, load, store, stack, jump, arith_op, compare_op, block, sys, macro}

-- An opcode by the number of its operands; `none` for one that must not be executed.
pub data Form : Type 0 where
  none : Form
  op0 : Instr → Form
  op1 : (ℕ → Instr) → Form
  op2 : (ℕ → ℕ → Instr) → Form
  op3 : (ℕ → ℕ → ℕ → Instr) → Form
  op4 : (ℕ → ℕ → ℕ → ℕ → Instr) → Form
  op5 : (ℕ → ℕ → ℕ → ℕ → ℕ → Instr) → Form

-- OP_NONE to OP_PROC.
unfoldable pub memory_opcodes : List Form
memory_opcodes =
    none
    ∷ op1 (λ a. load (Load.load_pri a))
    ∷ op1 (λ a. load (Load.load_alt a))
    ∷ op1 (λ a. load (Load.load_s_pri a))
    ∷ op1 (λ a. load (Load.load_s_alt a))
    ∷ op1 (λ a. load (Load.lref_pri a))
    ∷ op1 (λ a. load (Load.lref_alt a))
    ∷ op1 (λ a. load (Load.lref_s_pri a))
    ∷ op1 (λ a. load (Load.lref_s_alt a))
    ∷ op0 (load Load.load_i)
    ∷ op1 (λ a. load (Load.lodb_i a))
    ∷ op1 (λ a. load (Load.const_pri a))
    ∷ op1 (λ a. load (Load.const_alt a))
    ∷ op1 (λ a. load (Load.addr_pri a))
    ∷ op1 (λ a. load (Load.addr_alt a))
    ∷ op1 (λ a. store (Store.stor_pri a))
    ∷ op1 (λ a. store (Store.stor_alt a))
    ∷ op1 (λ a. store (Store.stor_s_pri a))
    ∷ op1 (λ a. store (Store.stor_s_alt a))
    ∷ op1 (λ a. store (Store.sref_pri a))
    ∷ op1 (λ a. store (Store.sref_alt a))
    ∷ op1 (λ a. store (Store.sref_s_pri a))
    ∷ op1 (λ a. store (Store.sref_s_alt a))
    ∷ op0 (store Store.stor_i)
    ∷ op1 (λ a. store (Store.strb_i a))
    ∷ op0 (store Store.lidx)
    ∷ op1 (λ a. store (Store.lidx_b a))
    ∷ op0 (store Store.idxaddr)
    ∷ op1 (λ a. store (Store.idxaddr_b a))
    ∷ op1 (λ a. store (Store.align_pri a))
    ∷ op1 (λ a. store (Store.align_alt a))
    ∷ op1 (λ a. store (Store.lctrl a))
    ∷ op1 (λ a. store (Store.sctrl a))
    ∷ op0 (store Store.move_pri)
    ∷ op0 (store Store.move_alt)
    ∷ op0 (store Store.xchg)
    ∷ op0 (stack Stack.push_pri)
    ∷ op0 (stack Stack.push_alt)
    ∷ op1 (λ a. stack (Stack.push_r a))
    ∷ op1 (λ a. stack (Stack.push_c a))
    ∷ op1 (λ a. stack (Stack.push_m a))
    ∷ op1 (λ a. stack (Stack.push_s a))
    ∷ op0 (stack Stack.pop_pri)
    ∷ op0 (stack Stack.pop_alt)
    ∷ op1 (λ a. stack (Stack.stack a))
    ∷ op1 (λ a. stack (Stack.heap a))
    ∷ op0 (stack Stack.proc)
    ∷ []

-- OP_RET to OP_SIGN_ALT.
unfoldable pub arith_opcodes : List Form
arith_opcodes =
    op0 (jump Jump.ret)
    ∷ op0 (jump Jump.retn)
    ∷ op1 (λ a. jump (Jump.call a))
    ∷ op0 (jump Jump.call_pri)
    ∷ op1 (λ a. jump (Jump.jump a))
    ∷ op1 (λ a. jump (Jump.jrel a))
    ∷ op1 (λ a. jump (Jump.jzer a))
    ∷ op1 (λ a. jump (Jump.jnz a))
    ∷ op1 (λ a. jump (Jump.jeq a))
    ∷ op1 (λ a. jump (Jump.jneq a))
    ∷ op1 (λ a. jump (Jump.jless a))
    ∷ op1 (λ a. jump (Jump.jleq a))
    ∷ op1 (λ a. jump (Jump.jgrtr a))
    ∷ op1 (λ a. jump (Jump.jgeq a))
    ∷ op1 (λ a. jump (Jump.jsless a))
    ∷ op1 (λ a. jump (Jump.jsleq a))
    ∷ op1 (λ a. jump (Jump.jsgrtr a))
    ∷ op1 (λ a. jump (Jump.jsgeq a))
    ∷ op0 (arith_op Arith.shl_op)
    ∷ op0 (arith_op Arith.shr_op)
    ∷ op0 (arith_op Arith.sshr_op)
    ∷ op1 (λ a. arith_op (Arith.shl_c_pri a))
    ∷ op1 (λ a. arith_op (Arith.shl_c_alt a))
    ∷ op1 (λ a. arith_op (Arith.shr_c_pri a))
    ∷ op1 (λ a. arith_op (Arith.shr_c_alt a))
    ∷ op0 (arith_op Arith.smul)
    ∷ op0 (arith_op Arith.sdiv)
    ∷ op0 (arith_op Arith.sdiv_alt)
    ∷ op0 (arith_op Arith.umul)
    ∷ op0 (arith_op Arith.udiv)
    ∷ op0 (arith_op Arith.udiv_alt)
    ∷ op0 (arith_op Arith.add_op)
    ∷ op0 (arith_op Arith.sub_op)
    ∷ op0 (arith_op Arith.sub_alt)
    ∷ op0 (arith_op Arith.and_op)
    ∷ op0 (arith_op Arith.or_op)
    ∷ op0 (arith_op Arith.xor_op)
    ∷ op0 (arith_op Arith.not_op)
    ∷ op0 (arith_op Arith.neg_op)
    ∷ op0 (arith_op Arith.invert_op)
    ∷ op1 (λ a. arith_op (Arith.add_c a))
    ∷ op1 (λ a. arith_op (Arith.smul_c a))
    ∷ op0 (arith_op Arith.zero_pri)
    ∷ op0 (arith_op Arith.zero_alt)
    ∷ op1 (λ a. arith_op (Arith.zero_m a))
    ∷ op1 (λ a. arith_op (Arith.zero_s a))
    ∷ op0 (arith_op Arith.sign_pri)
    ∷ op0 (arith_op Arith.sign_alt)
    ∷ []

-- OP_EQ to OP_CONST_S.
unfoldable pub other_opcodes : List Form
other_opcodes =
    op0 (compare_op Compare.eq)
    ∷ op0 (compare_op Compare.neq)
    ∷ op0 (compare_op Compare.less)
    ∷ op0 (compare_op Compare.leq)
    ∷ op0 (compare_op Compare.grtr)
    ∷ op0 (compare_op Compare.geq)
    ∷ op0 (compare_op Compare.sless)
    ∷ op0 (compare_op Compare.sleq)
    ∷ op0 (compare_op Compare.sgrtr)
    ∷ op0 (compare_op Compare.sgeq)
    ∷ op1 (λ a. compare_op (Compare.eq_c_pri a))
    ∷ op1 (λ a. compare_op (Compare.eq_c_alt a))
    ∷ op0 (compare_op Compare.inc_pri)
    ∷ op0 (compare_op Compare.inc_alt)
    ∷ op1 (λ a. compare_op (Compare.inc a))
    ∷ op1 (λ a. compare_op (Compare.inc_s a))
    ∷ op0 (compare_op Compare.inc_i)
    ∷ op0 (compare_op Compare.dec_pri)
    ∷ op0 (compare_op Compare.dec_alt)
    ∷ op1 (λ a. compare_op (Compare.dec a))
    ∷ op1 (λ a. compare_op (Compare.dec_s a))
    ∷ op0 (compare_op Compare.dec_i)
    ∷ op1 (λ a. block (Block.movs a))
    ∷ op1 (λ a. block (Block.cmps a))
    ∷ op1 (λ a. block (Block.fill a))
    ∷ op1 (λ a. sys (Sys.halt a))
    ∷ op1 (λ a. block (Block.bounds a))
    ∷ op0 (sys Sys.sysreq_pri)
    ∷ op1 (λ a. sys (Sys.sysreq_c a))
    ∷ none
    ∷ op2 (λ a b. sys (Sys.line a b))
    ∷ op1 (λ a. sys (Sys.symbol a))
    ∷ op2 (λ a b. sys (Sys.srange a b))
    ∷ op0 (sys Sys.jump_pri)
    ∷ op1 (λ a. sys (Sys.switch a))
    ∷ none
    ∷ op0 (stack Stack.swap_pri)
    ∷ op0 (stack Stack.swap_alt)
    ∷ op1 (λ a. stack (Stack.push_adr a))
    ∷ op0 (sys Sys.nop)
    ∷ op2 (λ a b. sys (Sys.sysreq_n a b))
    ∷ op1 (λ a. sys (Sys.symtag a))
    ∷ op0 (sys Sys.break)
    ∷ op2 (λ a b. macro (Macro.push2_c a b))
    ∷ op2 (λ a b. macro (Macro.push2 a b))
    ∷ op2 (λ a b. macro (Macro.push2_s a b))
    ∷ op2 (λ a b. macro (Macro.push2_adr a b))
    ∷ op3 (λ a b c. macro (Macro.push3_c a b c))
    ∷ op3 (λ a b c. macro (Macro.push3 a b c))
    ∷ op3 (λ a b c. macro (Macro.push3_s a b c))
    ∷ op3 (λ a b c. macro (Macro.push3_adr a b c))
    ∷ op4 (λ a b c d. macro (Macro.push4_c a b c d))
    ∷ op4 (λ a b c d. macro (Macro.push4 a b c d))
    ∷ op4 (λ a b c d. macro (Macro.push4_s a b c d))
    ∷ op4 (λ a b c d. macro (Macro.push4_adr a b c d))
    ∷ op5 (λ a b c d e. macro (Macro.push5_c a b c d e))
    ∷ op5 (λ a b c d e. macro (Macro.push5 a b c d e))
    ∷ op5 (λ a b c d e. macro (Macro.push5_s a b c d e))
    ∷ op5 (λ a b c d e. macro (Macro.push5_adr a b c d e))
    ∷ op2 (λ a b. macro (Macro.load_both a b))
    ∷ op2 (λ a b. macro (Macro.load_s_both a b))
    ∷ op2 (λ a b. macro (Macro.const_m a b))
    ∷ op2 (λ a b. macro (Macro.const_s a b))
    ∷ []

-- The whole enumeration, each opcode at its number.
unfoldable pub opcodes : List Form
unfolding memory_opcodes arith_opcodes other_opcodes
opcodes = memory_opcodes ++ (arith_opcodes ++ other_opcodes)
