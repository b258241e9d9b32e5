-- ===== src/Machine/Tests.antt =====
-- The abstract machine at concrete programs and states.
use pawn_x.Prelude.{
  ℕ, zero, suc, ◌-◌, ◌/◌, ◌<◌, ◌≡◌, ◌≢◌, none, some, List, [], ◌∷◌, get_elem?, refl, arith,
}
use pawn_x.Cell.{modulus, add}
use pawn_x.Memory.{Memory, read, write}
use pawn_x.Machine.{Amx, Program, State, next, goto, stop}
use pawn_x.Machine.Arith
use pawn_x.Machine.Stack
use pawn_x.Machine.Compare
use pawn_x.Machine.Block
use pawn_x.Machine.Instr.{stack, arith_op, compare_op, block, sys, macro}
use pawn_x.Machine.Jump
use pawn_x.Machine.Sys
use pawn_x.Machine.Sys.{Host, Reply, switch_target}
use pawn_x.Machine.Macro
use pawn_x.Machine.Macro.{push3}
use pawn_x.Machine.Opcodes.{op0, op1, op2, opcodes, memory_opcodes, arith_opcodes, other_opcodes}
use pawn_x.Machine.Step.{Env, exec, decode, step, run}
use pawn_x.Machine.Switch.{value, target, IsAscending, switch_target_hit}
use pawn_x.Machine.Calls.{enter, entered, retn-enter}
use pawn_x.Machine.Expansion.{sequence, expansion, keep, exec-expansion}
use pawn_x.Machine.Entry.{Header, begin, cont}
use pawn_x.Machine.Sleep.{IsSound, saved, cont-halt, cont-sysreq}

abbrev blank : Memory
blank a = 0

abbrev fresh : Amx
fresh = record {
  cip = 0;
  frm = 0;
  hea = 0;
  stk = 0;
  pri = 0;
  alt = 0;
  reset_stk = 1000;
  reset_hea = 100;
}

-- One argument, 7, and its size are on the stack.
abbrev start : State
start = record {
  mem = write (write blank 1004 7) 1000 4;
  pri = 42;
  alt = 16;
  frm = 1016;
  stk = 1000;
  hea = 100;
  cip = 48;
  reset_stk = 1000;
  reset_hea = 100;
  amx = fresh;
}

abbrev cell_at : List ℕ → ℕ → ℕ
cell_at cells a = elim (get_elem? cells (a / 4)) [ none ↦ 0 | some c ↦ c ]

-- `casetbl` with three records: -1, 1 and 5.
abbrev table : List ℕ
table = 130 ∷ 3 ∷ 400 ∷ (modulus - 1) ∷ 100 ∷ 1 ∷ 200 ∷ 5 ∷ 300 ∷ []

abbrev program : List ℕ → Program
program cells = record {
  code = cell_at cells;
  codesize = 4096;
  cod = 0;
  dat = 4096;
  hlw = 100;
  stp = 1024;
  flags = 0;
}

abbrev host : Host
host = record {
  callback = λ index s. record { error = 0; result = index; mem = s.mem; amx = s.amx };
  debug = none;
}

abbrev env : Env
env = record { memcmp = λ m a b n. 0; host = host }

-- `add.c 5`, `halt 0`.
abbrev adder : List ℕ
adder = 87 ∷ 5 ∷ 120 ∷ 0 ∷ []

abbrev result : State
result = record start {
  pri = 47;
  cip = 16;
  amx = record fresh { frm = 1016; pri = 47; alt = 16; cip = 16; stk = 1000; hea = 100 };
}

ends_with_result : run 2 env (program adder) (record start { cip = 0 }) ≡ some (0, result)
unfolding run step decode exec Arith.exec Sys.exec opcodes memory_opcodes arith_opcodes
    other_opcodes
ends_with_result = refl

table-IsAscending : IsAscending (program table).code 12 3
table-IsAscending zero zero l h = absurd (omega arith)
table-IsAscending zero (suc zero) l h = omega arith
table-IsAscending zero (suc (suc zero)) l h = omega arith
table-IsAscending (suc zero) (suc zero) l h = absurd (omega arith)
table-IsAscending (suc zero) (suc (suc zero)) l h = omega arith
table-IsAscending (suc i) zero l h = absurd (omega arith)
table-IsAscending (suc (suc i)) (suc zero) l h = absurd (omega arith)
table-IsAscending (suc (suc i)) (suc (suc zero)) l h = absurd (omega arith)
table-IsAscending i (suc (suc (suc j))) l h = absurd (omega arith)

switch_target_hit_example :
    switch_target (program table) 0 (value (program table).code 12 2)
    ≡ target (program table).code 12 2
switch_target_hit_example = switch_target_hit (program table) 0 2 table-IsAscending (omega arith)

apart :
    (k : ℕ)
    → k < 3
    → (value (program table).code 12 k < modulus) × (value (program table).code 12 k ≢ 3)
apart zero h = (omega arith, omega arith)
apart (suc zero) h = (omega arith, omega arith)
apart (suc (suc zero)) h = (omega arith, omega arith)
apart (suc (suc (suc k))) h = absurd (omega arith)

-- A callee that changed `pri` and dropped its locals.
abbrev leaving : State
leaving = record (entered 80 start) { pri = 9; cip = 120 }

retn-enter_example :
    (enter (program []) 80 start ≡ next (entered 80 start))
    × (Jump.exec (program []) Jump.retn leaving
        ≡ goto 48 (record leaving {
          frm = 1016;
          stk = add 1000 (add (read start.mem 1000) 4);
          amx = record fresh { stk = add 1000 (add (read start.mem 1000) 4) };
        }))
retn-enter_example =
    retn-enter (program []) 80 start leaving (omega arith) (omega arith) (omega arith) (omega arith)
      (omega arith) refl refl refl refl refl

exec-expansion_example :
    Macro.exec (program []) (push3 1000 1004 1008) start
    ≡ keep
        (push3 1000 1004 1008)
        start
        (sequence (program []) (expansion (push3 1000 1004 1008)) start)
exec-expansion_example = exec-expansion (program []) (push3 1000 1004 1008) start

abbrev header : Header
header = record { main_cip = 8; publics = 120 ∷ [] }

start-IsSound : IsSound (program []) start
start-IsSound = record { stack = refl; heap = refl; margin = refl }

cont-halt_example :
    (Sys.exec host (program []) (Sys.halt 12) start ≡ stop 12 (record start { amx = saved start }))
    × (begin (program []) header 0 (saved start) start.mem cont
        ≡ next (record start { amx = saved start }))
cont-halt_example = cont-halt host (program []) header 0 start start-IsSound

-- A host whose natives ask to sleep.
abbrev sleeper : Host
sleeper = record {
  callback = λ index s. record { error = 12; result = index; mem = s.mem; amx = s.amx };
  debug = none;
}

cont-sysreq_example :
    (Sys.exec sleeper (program []) (Sys.sysreq_c 6) start
      ≡ stop 12 (record start { pri = 6; amx = saved (record start { pri = 6 }) }))
    × (begin (program []) header 0 (saved (record start { pri = 6 })) start.mem cont
        ≡ next (record start { pri = 6; amx = saved (record start { pri = 6 }) }))
cont-sysreq_example = cont-sysreq sleeper (program []) header 0 6 start start-IsSound refl refl

-- The positions that `amx_Exec` asserts.
positions :
    (get_elem? opcodes 36 ≡ some (op0 (stack Stack.push_pri)))
    × (get_elem? opcodes 46 ≡ some (op0 (stack Stack.proc)))
    × (get_elem? opcodes 65 ≡ some (op0 (arith_op Arith.shl_op)))
    × (get_elem? opcodes 72 ≡ some (op0 (arith_op Arith.smul)))
    × (get_elem? opcodes 95 ≡ some (op0 (compare_op Compare.eq)))
    × (get_elem? opcodes 107 ≡ some (op0 (compare_op Compare.inc_pri)))
    × (get_elem? opcodes 117 ≡ some (op1 (λ n. block (Block.movs n))))
    × (get_elem? opcodes 126 ≡ some (op1 (λ n. sys (Sys.symbol n))))
    × (get_elem? opcodes 138 ≡ some (op2 (λ a b. macro (Macro.push2_c a b))))
    × (get_elem? opcodes 154 ≡ some (op2 (λ a b. macro (Macro.load_both a b))))
unfolding opcodes memory_opcodes arith_opcodes other_opcodes
positions = (refl, refl, refl, refl, refl, refl, refl, refl, refl, refl)
