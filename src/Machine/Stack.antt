-- ===== src/Machine/Stack.antt =====
-- The instructions on the stack and the heap (amx.c, OP_PUSH_PRI to OP_PROC, OP_SWAP_PRI to
-- OP_PUSH_ADR).
use pawn_x.Prelude.{ℕ, zero, suc}
use pawn_x.Cell.{add}
use pawn_x.Memory.{read, write}
use pawn_x.Machine.{Program, State, Outcome, next, push, pop, chkmargin, chkstack, chkheap}

pub data Stack : Type 0 where
  push_pri push_alt : Stack
  push_c push_r push_m push_s : ℕ → Stack
  pop_pri pop_alt : Stack
  stack heap : ℕ → Stack
  proc swap_pri swap_alt : Stack
  push_adr : ℕ → Stack

-- `while (offs--) PUSH(pri);`
unfoldable pub push_times : ℕ → State → State
push_times zero s = s
push_times (suc n) s = push_times n (push s s.pri)

abbrev pub checked : State → Outcome
checked s = chkmargin s (next s)

unfoldable pub exec : Program → Stack → State → Outcome
unfolding push_times
exec p push_pri s = next (push s s.pri)
exec p push_alt s = next (push s s.alt)
exec p (push_c v) s = next (push s v)
exec p (push_r n) s = next (push_times n s)
exec p (push_m offs) s = next (push s (read s.mem offs))
exec p (push_s offs) s = next (push s (read s.mem (add s.frm offs)))
exec p pop_pri s = let (v, s') = pop s in next (record s' { pri = v })
exec p pop_alt s = let (v, s') = pop s in next (record s' { alt = v })
exec p (stack offs) s =
    let s' : State = record s { alt = s.stk; stk = add s.stk offs } in
    chkmargin s' (chkstack p s' (next s'))
exec p (heap offs) s =
    let s' : State = record s { alt = s.hea; hea = add s.hea offs } in
    chkmargin s' (chkheap p s' (next s'))
exec p proc s = let s' : State = push s s.frm in checked (record s' { frm = s'.stk })
exec p swap_pri s = next (record s { mem = write s.mem s.stk s.pri; pri = read s.mem s.stk })
exec p swap_alt s = next (record s { mem = write s.mem s.stk s.alt; alt = read s.mem s.stk })
exec p (push_adr offs) s = next (push s (add s.frm offs))
