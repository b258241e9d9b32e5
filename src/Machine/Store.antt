-- ===== src/Machine/Store.antt =====
-- The instructions that store, index arrays and move registers (amx.c, OP_STOR_PRI to OP_XCHG).
use Prim.Native.Nat.{bit_xor}
use pawn_x.Prelude.{ℕ, ◌-◌, ltb, ◌==◌, if◌then◌else◌}
use pawn_x.Cell.{add, mul, shl}
use pawn_x.Memory.{Memory, read, write, write8, write16}
use pawn_x.Machine.{Program, State, Outcome, next, goto, abort, is_bad, err_memaccess}

pub data Store : Type 0 where
  stor_pri stor_alt stor_s_pri stor_s_alt : ℕ → Store
  sref_pri sref_alt sref_s_pri sref_s_alt : ℕ → Store
  stor_i : Store
  strb_i : ℕ → Store
  lidx : Store
  lidx_b : ℕ → Store
  idxaddr : Store
  idxaddr_b align_pri align_alt lctrl sctrl : ℕ → Store
  move_pri move_alt xchg : Store

-- The inner `switch` of OP_STRB_I.
unfoldable pub write_sized : State → ℕ → Memory
write_sized s size =
    if size == 1
    then write8 s.mem s.alt s.pri
    else if size == 2
    then write16 s.mem s.alt s.pri
    else if size == 4
    then write s.mem s.alt s.pri
    else s.mem

-- `if ((size_t)offs<sizeof(cell)) r ^= sizeof(cell)-offs;` on a little-endian machine.
unfoldable pub align : ℕ → ℕ → ℕ
align r offs = if ltb offs 4 then bit_xor r (4 - offs) else r

-- The `switch` of OP_LCTRL: the new `pri`.
unfoldable pub control_of : Program → State → ℕ → ℕ
control_of p s i =
    if i == 0
    then p.cod
    else if i == 1
    then p.dat
    else if i == 2
    then s.hea
    else if i == 3
    then p.stp
    else if i == 4
    then s.stk
    else if i == 5
    then s.frm
    else if i == 6
    then s.cip
    else if i == 9
    then p.flags
    else s.pri

-- The `switch` of OP_SCTRL.
unfoldable pub set_control : State → ℕ → Outcome
set_control s i =
    if i == 2
    then next (record s { hea = s.pri })
    else if i == 4
    then next (record s { stk = s.pri })
    else if i == 5
    then next (record s { frm = s.pri })
    else if i == 6
    then goto s.pri s
    else next s

abbrev pub load_at : Program → State → ℕ → Outcome
load_at p s a =
    if is_bad p s a then abort s err_memaccess else next (record s { pri = read s.mem a })

unfoldable pub exec : Program → Store → State → Outcome
unfolding write_sized align control_of set_control
exec p (stor_pri offs) s = next (record s { mem = write s.mem offs s.pri })
exec p (stor_alt offs) s = next (record s { mem = write s.mem offs s.alt })
exec p (stor_s_pri offs) s = next (record s { mem = write s.mem (add s.frm offs) s.pri })
exec p (stor_s_alt offs) s = next (record s { mem = write s.mem (add s.frm offs) s.alt })
exec p (sref_pri offs) s = next (record s { mem = write s.mem (read s.mem offs) s.pri })
exec p (sref_alt offs) s = next (record s { mem = write s.mem (read s.mem offs) s.alt })
exec p (sref_s_pri offs) s =
    next (record s { mem = write s.mem (read s.mem (add s.frm offs)) s.pri })
exec p (sref_s_alt offs) s =
    next (record s { mem = write s.mem (read s.mem (add s.frm offs)) s.alt })
exec p stor_i s =
    if is_bad p s s.alt
    then abort s err_memaccess
    else next (record s { mem = write s.mem s.alt s.pri })
exec p (strb_i size) s =
    if is_bad p s s.alt then abort s err_memaccess else next (record s { mem = write_sized s size })
exec p lidx s = load_at p s (add (mul s.pri 4) s.alt)
exec p (lidx_b n) s = load_at p s (add (shl s.pri n) s.alt)
exec p idxaddr s = next (record s { pri = add (mul s.pri 4) s.alt })
exec p (idxaddr_b n) s = next (record s { pri = add (shl s.pri n) s.alt })
exec p (align_pri offs) s = next (record s { pri = align s.pri offs })
exec p (align_alt offs) s = next (record s { alt = align s.alt offs })
exec p (lctrl i) s = next (record s { pri = control_of p s i })
exec p (sctrl i) s = set_control s i
exec p move_pri s = next (record s { pri = s.alt })
exec p move_alt s = next (record s { alt = s.pri })
exec p xchg s = next (record s { pri = s.alt; alt = s.pri })
