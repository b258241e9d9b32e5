-- ===== src/Machine.antt =====
-- The registers of `amx_Exec` (compiler/source/amx/amx.c, the ANSI C interpreter), the fields of the
-- `AMX` structure that it saves, and how an instruction ends. Addresses in the code are offsets:
-- `cip - code` for `cip`, and jump targets before `RELOC_ABS` adds the base.
pub mod Load
pub mod Store
pub mod Stack
pub mod Jump
pub mod Arith
pub mod Compare
pub mod Block
pub mod Sys
pub mod Macro
pub mod Instr
pub mod Opcodes
pub mod Step
pub mod Switch
pub mod Expansion
pub mod Calls
pub mod Access
pub mod Rounds
pub mod Entry
pub mod Sleep
mod Tests
use pawn_x.Prelude.{ℕ, Bool, ◌&&◌, ◌||◌, leb, if◌then◌else◌}
use pawn_x.Cell.{slt, sle, add, sub}
use pawn_x.Memory.{Memory, read, write}

-- The fields of `AMX` that the interpreter reads and writes.
pub record Amx : Type 0 where
  pub cip : ℕ
  pub frm : ℕ
  pub hea : ℕ
  pub stk : ℕ
  pub pri : ℕ
  pub alt : ℕ
  pub reset_stk : ℕ
  pub reset_hea : ℕ

-- What does not change in a run: the code cell at an offset, its size, `hdr->cod`, `hdr->dat`, and
-- the fields `hlw`, `stp` and `flags`.
pub record Program : Type 0 where
  pub code : ℕ → ℕ
  pub codesize : ℕ
  pub cod : ℕ
  pub dat : ℕ
  pub hlw : ℕ
  pub stp : ℕ
  pub flags : ℕ

-- The local variables of `amx_Exec`, the memory and the saved fields.
pub record State : Type 0 where
  pub mem : Memory
  pub pri : ℕ
  pub alt : ℕ
  pub frm : ℕ
  pub stk : ℕ
  pub hea : ℕ
  pub cip : ℕ
  pub reset_stk : ℕ
  pub reset_hea : ℕ
  pub amx : Amx

-- `next`: the loop goes on behind the instruction. `goto`: it goes on at a target. `stop`: it
-- returns an error code; a native, the debug hook or `halt` may make that AMX_ERR_NONE.
pub data Outcome : Type 0 where
  next : State → Outcome
  goto : ℕ → State → Outcome
  stop : ℕ → State → Outcome

-- The codes of amx.h that the interpreter returns by itself.
abbrev pub err_none : ℕ
err_none = 0

abbrev pub err_stackerr : ℕ
err_stackerr = 3

abbrev pub err_bounds : ℕ
err_bounds = 4

abbrev pub err_memaccess : ℕ
err_memaccess = 5

abbrev pub err_invinstr : ℕ
err_invinstr = 6

abbrev pub err_stacklow : ℕ
err_stacklow = 7

abbrev pub err_heaplow : ℕ
err_heaplow = 8

abbrev pub err_divide : ℕ
err_divide = 11

abbrev pub err_sleep : ℕ
err_sleep = 12

-- STKMARGIN
abbrev pub stkmargin : ℕ
stkmargin = 64

-- The macro ABORT.
abbrev pub abort : State → ℕ → Outcome
abort s e = stop e (record s { amx = record s.amx { stk = s.reset_stk; hea = s.reset_hea } })

-- The macros PUSH and POP; POP gives the value and the state behind it.
abbrev pub push : State → ℕ → State
push s v = record s { stk = sub s.stk 4; mem = write s.mem (sub s.stk 4) v }

abbrev pub pop : State → ℕ × State
pop s = (read s.mem s.stk, record s { stk = add s.stk 4 })

-- The macros CHKMARGIN, CHKSTACK and CHKHEAP, each with what follows it.
abbrev pub chkmargin : State → Outcome → Outcome
chkmargin s rest = if slt s.stk (add s.hea stkmargin) then stop err_stackerr s else rest

abbrev pub chkstack : Program → State → Outcome → Outcome
chkstack p s rest = if slt p.stp s.stk then stop err_stacklow s else rest

abbrev pub chkheap : Program → State → Outcome → Outcome
chkheap p s rest = if slt s.hea p.hlw then stop err_heaplow s else rest

-- "verify address": the gap between heap and stack, and all from the top of the stack on, is
-- refused.
abbrev pub is_bad : Program → State → ℕ → Bool
is_bad p s a = (sle s.hea a && slt a s.stk) || leb p.stp a
