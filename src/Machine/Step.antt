-- ===== src/Machine/Step.antt =====
-- One round of the loop of `amx_Exec`: fetch an opcode, read its operands, execute it.
use pawn_x.Prelude.{ℕ, zero, suc, ◌+◌, ◌*◌, Option, get_elem?}
use pawn_x.Memory.{Memory}
use pawn_x.Machine.{Program, State, Outcome, next, goto, stop, abort, err_invinstr}
use pawn_x.Machine.Load
use pawn_x.Machine.Store
use pawn_x.Machine.Stack
use pawn_x.Machine.Jump
use pawn_x.Machine.Arith
use pawn_x.Machine.Compare
use pawn_x.Machine.Block
use pawn_x.Machine.Sys
use pawn_x.Machine.Sys.{Host}
use pawn_x.Machine.Instr.{Instr, load, store, stack, jump, arith_op, compare_op, block, sys, macro}
use pawn_x.Machine.Opcodes.{Form, op0, op1, op2, op3, op4, op5, opcodes}
use pawn_x.Machine.Macro

-- What the interpreter runs under: `memcmp` of the C library, and the host.
pub record Env : Type 0 where
  pub memcmp : Memory → ℕ → ℕ → ℕ → ℕ
  pub host : Host

unfoldable pub exec : Env → Program → Instr → State → Outcome
exec env p (load i) s = Load.exec p i s
exec env p (store i) s = Store.exec p i s
exec env p (stack i) s = Stack.exec p i s
exec env p (jump i) s = Jump.exec p i s
exec env p (arith_op i) s = Arith.exec p i s
exec env p (compare_op i) s = Compare.exec p i s
exec env p (block i) s = Block.exec env.memcmp p i s
exec env p (sys i) s = Sys.exec env.host p i s
exec env p (macro i) s = Macro.exec p i s

-- Operand `k` of the instruction at `cip`.
abbrev pub operand : Program → ℕ → ℕ → ℕ
operand p cip k = p.code (cip + 4 * k)

-- The opcode at `cip` with its operands, and their number.
unfoldable pub decode : Program → ℕ → Option (Instr × ℕ)
decode p cip = elim (get_elem? opcodes (operand p cip 0)) [
  | Option.none ↦ Option.none
  | Option.some form ↦ elim form [
    | Form.none ↦ Option.none
    | op0 i ↦ Option.some (i, 0)
    | op1 i ↦ Option.some (i (operand p cip 1), 1)
    | op2 i ↦ Option.some (i (operand p cip 1) (operand p cip 2), 2)
    | op3 i ↦ Option.some (i (operand p cip 1) (operand p cip 2) (operand p cip 3), 3)
    | op4 i ↦
        Option.some (i (operand p cip 1) (operand p cip 2) (operand p cip 3) (operand p cip 4), 4)
    | op5 i ↦ Option.some (
      i (operand p cip 1) (operand p cip 2) (operand p cip 3) (operand p cip 4) (operand p cip 5),
      5,
    )
  ]
]

-- One round of the loop. `default:` of the `switch` refuses what is no instruction.
unfoldable pub step : Env → Program → State → Outcome
unfolding decode exec
step env p s = elim (decode p s.cip) [
  | Option.none ↦ abort s err_invinstr
  | Option.some (i, n) ↦ exec env p i (record s { cip = s.cip + 4 * (n + 1) })
]

-- The loop, with a bound on its rounds; `none` if they run out. The result is the error code that
-- `amx_Exec` returns, and the state then.
unfoldable pub run : ℕ → Env → Program → State → Option (ℕ × State)
run zero env p s = Option.none
run (suc rounds) env p s = elim (step env p s) [
  | next s' ↦ run rounds env p s'
  | goto target s' ↦ run rounds env p (record s' { cip = target })
  | stop error s' ↦ Option.some (error, s')
]
