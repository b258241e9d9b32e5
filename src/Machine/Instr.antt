-- ===== src/Machine/Instr.antt =====
-- The instructions of the abstract machine, by family.
use pawn_x.Machine.Load.{Load}
use pawn_x.Machine.Store.{Store}
use pawn_x.Machine.Stack.{Stack}
use pawn_x.Machine.Jump.{Jump}
use pawn_x.Machine.Arith.{Arith}
use pawn_x.Machine.Compare.{Compare}
use pawn_x.Machine.Block.{Block}
use pawn_x.Machine.Sys.{Sys}
use pawn_x.Machine.Macro.{Macro}

pub data Instr : Type 0 where
  load : Load → Instr
  store : Store → Instr
  stack : Stack → Instr
  jump : Jump → Instr
  arith_op : Arith → Instr
  compare_op : Compare → Instr
  block : Block → Instr
  sys : Sys → Instr
  macro : Macro → Instr
