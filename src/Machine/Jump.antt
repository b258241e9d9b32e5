-- ===== src/Machine/Jump.antt =====
-- Calls, returns and jumps (amx.c, OP_RET to OP_JSGEQ). A target is an offset in the code; the cell
-- behind the opcode is read by `JUMPABS`. `s.cip` is behind the whole instruction.
use pawn_x.Prelude.{ℕ, Bool, not, leb, ltb, ◌==◌, if◌then◌else◌}
use pawn_x.Cell.{add, slt, sle}
use pawn_x.Memory.{read}
use pawn_x.Machine.{Program, State, Outcome, next, goto, abort, push, pop, err_memaccess}

pub data Jump : Type 0 where
  ret retn : Jump
  call : ℕ → Jump
  call_pri : Jump
  jump jrel jzer jnz jeq jneq jless jleq jgrtr jgeq jsless jsleq jsgrtr jsgeq : ℕ → Jump

abbrev pub jump_if : Bool → ℕ → State → Outcome
jump_if b target s = if b then goto target s else next s

unfoldable pub exec : Program → Jump → State → Outcome
exec p ret s =
    let (frm, s₁) = pop s in
    let (offs, s₂) = pop s₁ in
    let s' : State = record s₂ { frm = frm } in
    if leb p.codesize offs then abort s' err_memaccess else goto offs s'
exec p retn s =
    let (frm, s₁) = pop s in
    let (offs, s₂) = pop s₁ in
    let stk = add s₂.stk (add (read s.mem s₂.stk) 4) in
    if leb p.codesize offs
    then abort (record s₂ { frm = frm }) err_memaccess
    else goto offs (record s₂ { frm = frm; stk = stk; amx = record s.amx { stk = stk } })
exec p (call target) s = goto target (push s s.cip)
exec p call_pri s = goto s.pri (push s s.cip)
exec p (jump target) s = goto target s
exec p (jrel offs) s = goto (add s.cip offs) s
exec p (jzer target) s = jump_if (s.pri == 0) target s
exec p (jnz target) s = jump_if (not (s.pri == 0)) target s
exec p (jeq target) s = jump_if (s.pri == s.alt) target s
exec p (jneq target) s = jump_if (not (s.pri == s.alt)) target s
exec p (jless target) s = jump_if (ltb s.pri s.alt) target s
exec p (jleq target) s = jump_if (leb s.pri s.alt) target s
exec p (jgrtr target) s = jump_if (ltb s.alt s.pri) target s
exec p (jgeq target) s = jump_if (leb s.alt s.pri) target s
exec p (jsless target) s = jump_if (slt s.pri s.alt) target s
exec p (jsleq target) s = jump_if (sle s.pri s.alt) target s
exec p (jsgrtr target) s = jump_if (slt s.alt s.pri) target s
exec p (jsgeq target) s = jump_if (sle s.alt s.pri) target s
