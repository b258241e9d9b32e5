-- ===== src/Machine/Sleep.antt =====
-- Sleeping and continuing: OP_HALT and natives with AMX_ERR_SLEEP, and AMX_EXEC_CONT (amx.c).
use pawn_x.Prelude.{ℕ, ◌≡◌, false, refl}
use pawn_x.Cell.{add, slt}
use pawn_x.Machine.{Amx, Program, State, next, stop, err_sleep, stkmargin}
use pawn_x.Machine.Entry.{Header, begin, cont}
use pawn_x.Machine.Sys
use pawn_x.Machine.Sys.{Host, Reply, halt, sysreq_c, save}

-- The checks that AMX_EXEC_CONT makes of the registers.
pub record IsSound (p : Program) (s : State) : Type 0 where
  pub stack : slt p.stp s.stk ≡ false
  pub heap : slt s.hea p.hlw ≡ false
  pub margin : slt s.stk (add s.hea stkmargin) ≡ false

-- The fields that a sleeping run leaves.
abbrev pub saved : State → Amx
saved s = record {
  cip = s.cip;
  frm = s.frm;
  hea = s.hea;
  stk = s.stk;
  pri = s.pri;
  alt = s.alt;
  reset_stk = s.reset_stk;
  reset_hea = s.reset_hea;
}

-- Where the stack and the heap are in bounds, `halt` with AMX_ERR_SLEEP ends the run with all
-- registers saved, and AMX_EXEC_CONT starts the loop with the registers and the memory as they were
-- behind the instruction.
pub cont-halt :
    (host : Host) (p : Program) (hdr : Header) (paramcount : ℕ) (s : State)
    → IsSound p s
    → (Sys.exec host p (halt err_sleep) s ≡ stop err_sleep (record s { amx = saved s }))
      × (begin p hdr paramcount (saved s) s.mem cont ≡ next (record s { amx = saved s }))
unfolding Sys.exec Sys.halted begin
cont-halt host p hdr paramcount s v = (refl, rw (v.stack, v.heap, v.margin) refl)

-- Where the stack and the heap are in bounds and STKMARGIN bytes apart, a native that OP_SYSREQ_C
-- calls, that asks to sleep and leaves the registers in `amx` as they were, ends the run with all
-- registers saved, and AMX_EXEC_CONT goes on behind the instruction with the native's result and
-- memory.
pub cont-sysreq :
    (host : Host) (p : Program) (hdr : Header) (paramcount index : ℕ) (s : State)
    → IsSound p s
    → (host.callback index (save s)).error ≡ err_sleep
    → (host.callback index (save s)).amx ≡ (save s).amx
    → let r = host.callback index (save s) in
      let s' : State = record s { pri = r.result; mem = r.mem } in
      (Sys.exec host p (sysreq_c index) s ≡ stop err_sleep (record s' { amx = saved s' }))
      × (begin p hdr paramcount (saved s') s'.mem cont ≡ next (record s' { amx = saved s' }))
unfolding Sys.exec Sys.sysreq begin
cont-sysreq host p hdr paramcount index s v e k =
    (rw (e, k) refl, rw (v.stack, v.heap, v.margin) refl)
