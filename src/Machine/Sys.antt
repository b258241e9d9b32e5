-- ===== src/Machine/Sys.antt =====
-- Halting, natives, the switch, and the instructions that the interpreter passes over (amx.c,
-- OP_HALT, OP_SYSREQ_PRI to OP_SWITCH, OP_NOP to OP_BREAK).
use pawn_x.Prelude.{ℕ, zero, suc, ◌+◌, ◌-◌, ◌*◌, ◌/◌, Option, none, some, ltb, ◌==◌, if◌then◌else◌}
use pawn_x.Cell.{add, slt}
use pawn_x.Memory.{Memory}
use pawn_x.Machine.{
  Program, Amx, State, Outcome, next, goto, stop, abort, push, err_none, err_sleep,
}

pub data Sys : Type 0 where
  halt : ℕ → Sys
  sysreq_pri : Sys
  sysreq_c : ℕ → Sys
  line : ℕ → ℕ → Sys
  symbol : ℕ → Sys
  srange : ℕ → ℕ → Sys
  symtag : ℕ → Sys
  jump_pri : Sys
  switch : ℕ → Sys
  nop break : Sys
  sysreq_n : ℕ → ℕ → Sys

-- What a native or the debug hook gives back: an error code, `*result`, and the memory and `AMX`
-- fields as it left them.
pub record Reply : Type 0 where
  pub error : ℕ
  pub result : ℕ
  pub mem : Memory
  pub amx : Amx

-- The host's `amx->callback` at a native's index, and its `amx->debug`, if there is one.
pub record Host : Type 0 where
  pub callback : ℕ → State → Reply
  pub debug : Option (State → Reply)

-- "save a few registers"
abbrev pub save : State → State
save s = record s { amx = record s.amx { cip = s.cip; hea = s.hea; frm = s.frm; stk = s.stk } }

-- After a call of the host: go on, sleep with all registers saved, or abort.
abbrev pub resume : State → ℕ → Outcome
resume s error =
    if error == err_none
    then next s
    else if error == err_sleep
    then stop error (record s {
      amx = record s.amx {
        pri = s.pri;
        alt = s.alt;
        reset_stk = s.reset_stk;
        reset_hea = s.reset_hea;
      };
    })
    else abort s error

-- The state behind a native's call, the local `stk` being `stk`.
abbrev pub replied : State → Reply → ℕ → State
replied s r stk = record s { pri = r.result; mem = r.mem; amx = r.amx; stk = stk }

-- The search of OP_SWITCH among the records `i` to `top - 1` of the case table, `top` being
-- `num + 1`. A record is a value and a target, two cells from `table` on.
unfoldable pub find_case : ℕ → (ℕ → ℕ) → ℕ → ℕ → ℕ → ℕ → ℕ → ℕ
find_case zero code table pri i top default = default
find_case (suc rounds) code table pri i top default =
    let mid = (i + top - 1) / 2 in
    let right = find_case rounds code table pri (mid + 1) top default in
    let left = find_case rounds code table pri i mid default in
    if ltb i top
    then if slt (code (table + 8 * mid)) pri
      then right
      else if slt pri (code (table + 8 * mid))
      then left
      else code (table + 8 * mid + 4)
    else default

-- OP_SWITCH: behind the `casetbl` opcode stand the number of records, the default target, and the
-- records, sorted by value.
unfoldable pub switch_target : Program → ℕ → ℕ → ℕ
unfolding find_case
switch_target p label pri =
    let n = p.code (label + 4) in find_case n p.code (label + 12) pri 0 n (p.code (label + 8))

module _ (host : Host) where
  -- OP_SYSREQ_PRI and OP_SYSREQ_C
  unfoldable pub sysreq : ℕ → State → Outcome
  sysreq index s = let r = host.callback index (save s) in resume (replied s r s.stk) r.error

  -- OP_SYSREQ_N: the parameters are pushed by the script, their size here, and both removed.
  unfoldable pub sysreq_with : ℕ → ℕ → State → Outcome
  sysreq_with index bytes s =
      let s' : State = push s bytes in
      let r = host.callback index (save s') in
      resume (replied s' r (add s'.stk (add bytes 4))) r.error

  -- OP_BREAK
  unfoldable pub debug_break : State → Outcome
  debug_break s = elim (host.debug) [
    | none ↦ next s
    | some hook ↦ let r = hook (save s) in resume (record s { mem = r.mem; amx = r.amx }) r.error
  ]

  -- OP_HALT
  unfoldable pub halted : ℕ → State → Outcome
  halted code s =
      let amx = record s.amx { frm = s.frm; pri = s.pri; alt = s.alt; cip = s.cip } in
      if code == err_sleep
      then stop code (record s {
        amx = record amx {
          stk = s.stk;
          hea = s.hea;
          reset_stk = s.reset_stk;
          reset_hea = s.reset_hea;
        };
      })
      else abort (record s { amx = amx }) code

  unfoldable pub exec : Program → Sys → State → Outcome
  unfolding sysreq sysreq_with debug_break halted switch_target
  exec p (halt code) s = halted code s
  exec p sysreq_pri s = sysreq s.pri s
  exec p (sysreq_c index) s = sysreq index s
  exec p (line a b) s = next s
  exec p (symbol size) s = goto (add s.cip size) s
  exec p (srange a b) s = next s
  exec p (symtag a) s = next s
  exec p jump_pri s = goto s.pri s
  exec p (switch label) s = goto (switch_target p label s.pri) s
  exec p nop s = next s
  exec p break s = debug_break s
  exec p (sysreq_n index bytes) s = sysreq_with index bytes s
