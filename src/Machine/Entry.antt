-- ===== src/Machine/Entry.antt =====
-- How `amx_Exec` starts (amx.c, from "set up the registers" to "start running"): with `main`, with a
-- public function, or where a sleeping run stopped. The checks of the callback and the flags before
-- that are left out. The field `paramcount`, which the start clears, is an argument.
use pawn_x.Prelude.{ℕ, ◌*◌, List, none, some, get_elem?, if◌then◌else◌}
use pawn_x.Cell.{add, is_neg}
use pawn_x.Memory.{Memory}
use pawn_x.Machine.{Amx, Program, State, Outcome, next, stop, push, chkmargin, chkstack, chkheap}

-- AMX_ERR_INDEX
abbrev pub err_index : ℕ
err_index = 20

-- `hdr->cip`, and the addresses of the public functions.
pub record Header : Type 0 where
  pub main_cip : ℕ
  pub publics : List ℕ

-- The argument `index`: AMX_EXEC_MAIN, AMX_EXEC_CONT, or the index of a public function.
pub data Start : Type 0 where
  main cont : Start
  public_function : ℕ → Start

-- The registers for a fresh start at an address.
abbrev pub initial : Amx → Memory → ℕ → State
initial amx mem cip = record {
  mem = mem;
  pri = 0;
  alt = 0;
  frm = 0;
  stk = amx.stk;
  hea = amx.hea;
  cip = cip;
  reset_stk = amx.stk;
  reset_hea = amx.hea;
  amx = amx;
}

-- The registers of a run that slept.
abbrev pub restored : Amx → Memory → State
restored amx mem = record {
  mem = mem;
  pri = amx.pri;
  alt = amx.alt;
  frm = amx.frm;
  stk = amx.stk;
  hea = amx.hea;
  cip = amx.cip;
  reset_stk = amx.reset_stk;
  reset_hea = amx.reset_hea;
  amx = amx;
}

-- The checks and, for a fresh start, the parameter count and the return address on the stack.
abbrev pub launch : Program → ℕ → State → Outcome
launch p paramcount s =
    let s' : State =
      push (push (record s { reset_stk = add s.reset_stk (paramcount * 4) }) (paramcount * 4)) 0 in
    chkstack p s (chkheap p s (chkmargin s' (next s')))

abbrev pub launch_cont : Program → State → Outcome
launch_cont p s = chkstack p s (chkheap p s (chkmargin s (next s)))

-- The start of `amx_Exec`, up to the loop: the state for it, or the error that is returned.
unfoldable pub begin : Program → Header → ℕ → Amx → Memory → Start → Outcome
begin p hdr paramcount amx mem main =
    if is_neg hdr.main_cip
    then stop err_index (initial amx mem 0)
    else launch p paramcount (initial amx mem hdr.main_cip)
begin p hdr paramcount amx mem cont = launch_cont p (restored amx mem)
begin p hdr paramcount amx mem (public_function index) = elim (get_elem? hdr.publics index) [
  | none ↦ stop err_index (initial amx mem 0)
  | some address ↦ launch p paramcount (initial amx mem address)
]
