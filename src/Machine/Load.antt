-- ===== src/Machine/Load.antt =====
-- The instructions that load a register (amx.c, OP_LOAD_PRI to OP_ADDR_ALT).
use pawn_x.Prelude.{ℕ, ◌==◌, if◌then◌else◌}
use pawn_x.Cell.{add}
use pawn_x.Memory.{read, read8, read16}
use pawn_x.Machine.{Program, State, Outcome, next, abort, is_bad, err_memaccess}

pub data Load : Type 0 where
  load_pri load_alt load_s_pri load_s_alt : ℕ → Load
  lref_pri lref_alt lref_s_pri lref_s_alt : ℕ → Load
  load_i : Load
  lodb_i : ℕ → Load
  const_pri const_alt addr_pri addr_alt : ℕ → Load

-- The inner `switch` of OP_LODB_I.
unfoldable pub read_sized : State → ℕ → ℕ
read_sized s size =
    if size == 1
    then read8 s.mem s.pri
    else if size == 2
    then read16 s.mem s.pri
    else if size == 4
    then read s.mem s.pri
    else s.pri

unfoldable pub exec : Program → Load → State → Outcome
unfolding read_sized
exec p (load_pri offs) s = next (record s { pri = read s.mem offs })
exec p (load_alt offs) s = next (record s { alt = read s.mem offs })
exec p (load_s_pri offs) s = next (record s { pri = read s.mem (add s.frm offs) })
exec p (load_s_alt offs) s = next (record s { alt = read s.mem (add s.frm offs) })
exec p (lref_pri offs) s = next (record s { pri = read s.mem (read s.mem offs) })
exec p (lref_alt offs) s = next (record s { alt = read s.mem (read s.mem offs) })
exec p (lref_s_pri offs) s = next (record s { pri = read s.mem (read s.mem (add s.frm offs)) })
exec p (lref_s_alt offs) s = next (record s { alt = read s.mem (read s.mem (add s.frm offs)) })
exec p load_i s =
    if is_bad p s s.pri then abort s err_memaccess else next (record s { pri = read s.mem s.pri })
exec p (lodb_i size) s =
    if is_bad p s s.pri then abort s err_memaccess else next (record s { pri = read_sized s size })
exec p (const_pri v) s = next (record s { pri = v })
exec p (const_alt v) s = next (record s { alt = v })
exec p (addr_pri offs) s = next (record s { pri = add offs s.frm })
exec p (addr_alt offs) s = next (record s { alt = add offs s.frm })
