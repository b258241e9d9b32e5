-- ===== src/Machine/Macro.antt =====
-- The macro instructions of amx.c from OP_PUSH5 to OP_CONST_S; OP_SYSREQ_N, which calls a native, is
-- in Sys.
use pawn_x.Prelude.{ℕ}
use pawn_x.Cell.{add}
use pawn_x.Memory.{read, write}
use pawn_x.Machine.{Program, State, Outcome, next, push}

pub data Macro : Type 0 where
  push2 push2_s push2_c push2_adr : ℕ → ℕ → Macro
  push3 push3_s push3_c push3_adr : ℕ → ℕ → ℕ → Macro
  push4 push4_s push4_c push4_adr : ℕ → ℕ → ℕ → ℕ → Macro
  push5 push5_s push5_c push5_adr : ℕ → ℕ → ℕ → ℕ → ℕ → Macro
  load_both load_s_both const_m const_s : ℕ → ℕ → Macro

-- One `GETPARAM(offs); PUSH(…);` of each family.
abbrev pub one : State → ℕ → State
one s a = push s (read s.mem a)

abbrev pub one_s : State → ℕ → State
one_s s a = push s (read s.mem (add s.frm a))

abbrev pub one_adr : State → ℕ → State
one_adr s a = push s (add s.frm a)

unfoldable pub exec : Program → Macro → State → Outcome
exec p (push2 a b) s = next (one (one s a) b)
exec p (push3 a b c) s = next (one (one (one s a) b) c)
exec p (push4 a b c d) s = next (one (one (one (one s a) b) c) d)
exec p (push5 a b c d e) s = next (one (one (one (one (one s a) b) c) d) e)
exec p (push2_s a b) s = next (one_s (one_s s a) b)
exec p (push3_s a b c) s = next (one_s (one_s (one_s s a) b) c)
exec p (push4_s a b c d) s = next (one_s (one_s (one_s (one_s s a) b) c) d)
exec p (push5_s a b c d e) s = next (one_s (one_s (one_s (one_s (one_s s a) b) c) d) e)
exec p (push2_c a b) s = next (push (push s a) b)
exec p (push3_c a b c) s = next (push (push (push s a) b) c)
exec p (push4_c a b c d) s = next (push (push (push (push s a) b) c) d)
exec p (push5_c a b c d e) s = next (push (push (push (push (push s a) b) c) d) e)
exec p (push2_adr a b) s = next (one_adr (one_adr s a) b)
exec p (push3_adr a b c) s = next (one_adr (one_adr (one_adr s a) b) c)
exec p (push4_adr a b c d) s = next (one_adr (one_adr (one_adr (one_adr s a) b) c) d)
exec p (push5_adr a b c d e) s = next (one_adr (one_adr (one_adr (one_adr (one_adr s a) b) c) d) e)
exec p (load_both a b) s = next (record s { pri = read s.mem a; alt = read s.mem b })
exec p (load_s_both a b) s =
    next (record s { pri = read s.mem (add s.frm a); alt = read s.mem (add s.frm b) })
exec p (const_m offs v) s = next (record s { mem = write s.mem offs v })
exec p (const_s offs v) s = next (record s { mem = write s.mem (add s.frm offs) v })
