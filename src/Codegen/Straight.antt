-- ===== src/Codegen/Straight.antt =====
-- The instructions of the abstract machine (amx.c) that the code generator's lines of one word are.
use mathlib.Core.Option.{some-injective}
use pawn_x.Prelude.{
  ℕ, ◌≡◌, refl, ap, Option, none, some, get_elem?, Bool-cases, inl, inr, not, ◌==◌, ◌&&◌, ◌-◌,
}
use Prim.Native.Nat.{bit_xor}
use pawn_x.Cell.{modulus, cell_min, is_neg, trem}
use pawn_x.Machine.{Program, State, Outcome, next, goto, stop, is_bad}
use pawn_x.Machine.Load
use pawn_x.Machine.Load.{Load}
use pawn_x.Machine.Store
use pawn_x.Machine.Store.{Store}
use pawn_x.Machine.Stack
use pawn_x.Machine.Stack.{Stack}
use pawn_x.Machine.Arith
use pawn_x.Machine.Arith.{Arith, exec_sdiv_alt}
use pawn_x.Machine.Compare
use pawn_x.Machine.Compare.{Compare}
use pawn_x.Machine.Sys
use pawn_x.Machine.Sys.{Sys}
use pawn_x.Machine.Instr.{Instr, load, store, stack, arith_op, compare_op, sys}
use pawn_x.Machine.Opcodes.{op0, opcodes, memory_opcodes, arith_opcodes, other_opcodes}
use pawn_x.Machine.Step.{Env, exec}
use pawn_x.Codegen.Plain.{Plain}
use pawn_x.Codegen.Cells.{plain_code}

-- The instruction of a line, if it is one that goes on with the next.
abbrev pub straight : Plain → Option Instr
straight Plain.load_i = some (load Load.load_i)
straight Plain.stor_i = some (store Store.stor_i)
straight Plain.move_pri = some (store Store.move_pri)
straight Plain.move_alt = some (store Store.move_alt)
straight Plain.push_pri = some (stack Stack.push_pri)
straight Plain.push_alt = some (stack Stack.push_alt)
straight Plain.pop_pri = some (stack Stack.pop_pri)
straight Plain.pop_alt = some (stack Stack.pop_alt)
straight Plain.swap_pri = some (stack Stack.swap_pri)
straight Plain.swap_alt = some (stack Stack.swap_alt)
straight Plain.inc_i = some (compare_op Compare.inc_i)
straight Plain.dec_i = some (compare_op Compare.dec_i)
straight Plain.inc_pri = some (compare_op Compare.inc_pri)
straight Plain.dec_pri = some (compare_op Compare.dec_pri)
straight Plain.zero_pri = some (arith_op Arith.zero_pri)
straight Plain.zero_alt = some (arith_op Arith.zero_alt)
straight Plain.ret = none
straight Plain.retn = none
straight Plain.casetbl = none
straight Plain.smul = some (arith_op Arith.smul)
straight Plain.sdiv_alt = some (arith_op Arith.sdiv_alt)
straight Plain.add = some (arith_op Arith.add_op)
straight Plain.sub_alt = some (arith_op Arith.sub_alt)
straight Plain.xchg = some (store Store.xchg)
straight Plain.shl = some (arith_op Arith.shl_op)
straight Plain.sshr = some (arith_op Arith.sshr_op)
straight Plain.shr = some (arith_op Arith.shr_op)
straight Plain.or = some (arith_op Arith.or_op)
straight Plain.xor = some (arith_op Arith.xor_op)
straight Plain.and = some (arith_op Arith.and_op)
straight Plain.eq = some (compare_op Compare.eq)
straight Plain.neq = some (compare_op Compare.neq)
straight Plain.sless = some (compare_op Compare.sless)
straight Plain.sleq = some (compare_op Compare.sleq)
straight Plain.sgrtr = some (compare_op Compare.sgrtr)
straight Plain.sgeq = some (compare_op Compare.sgeq)
straight Plain.not = some (arith_op Arith.not_op)
straight Plain.neg = some (arith_op Arith.neg_op)
straight Plain.invert = some (arith_op Arith.invert_op)
straight Plain.nop = some (sys Sys.nop)

pub straight-opcodes :
    (i : Plain) (instr : Instr)
    → straight i ≡ some instr
    → get_elem? opcodes (plain_code i) ≡ some (op0 instr)
unfolding opcodes memory_opcodes arith_opcodes other_opcodes
straight-opcodes Plain.load_i instr e = ap (λ k. some (op0 k)) (some-injective _ instr e)
straight-opcodes Plain.stor_i instr e = ap (λ k. some (op0 k)) (some-injective _ instr e)
straight-opcodes Plain.move_pri instr e = ap (λ k. some (op0 k)) (some-injective _ instr e)
straight-opcodes Plain.move_alt instr e = ap (λ k. some (op0 k)) (some-injective _ instr e)
straight-opcodes Plain.push_pri instr e = ap (λ k. some (op0 k)) (some-injective _ instr e)
straight-opcodes Plain.push_alt instr e = ap (λ k. some (op0 k)) (some-injective _ instr e)
straight-opcodes Plain.pop_pri instr e = ap (λ k. some (op0 k)) (some-injective _ instr e)
straight-opcodes Plain.pop_alt instr e = ap (λ k. some (op0 k)) (some-injective _ instr e)
straight-opcodes Plain.swap_pri instr e = ap (λ k. some (op0 k)) (some-injective _ instr e)
straight-opcodes Plain.swap_alt instr e = ap (λ k. some (op0 k)) (some-injective _ instr e)
straight-opcodes Plain.inc_i instr e = ap (λ k. some (op0 k)) (some-injective _ instr e)
straight-opcodes Plain.dec_i instr e = ap (λ k. some (op0 k)) (some-injective _ instr e)
straight-opcodes Plain.inc_pri instr e = ap (λ k. some (op0 k)) (some-injective _ instr e)
straight-opcodes Plain.dec_pri instr e = ap (λ k. some (op0 k)) (some-injective _ instr e)
straight-opcodes Plain.zero_pri instr e = ap (λ k. some (op0 k)) (some-injective _ instr e)
straight-opcodes Plain.zero_alt instr e = ap (λ k. some (op0 k)) (some-injective _ instr e)
straight-opcodes Plain.ret instr e = absurd (cc e)
straight-opcodes Plain.retn instr e = absurd (cc e)
straight-opcodes Plain.casetbl instr e = absurd (cc e)
straight-opcodes Plain.smul instr e = ap (λ k. some (op0 k)) (some-injective _ instr e)
straight-opcodes Plain.sdiv_alt instr e = ap (λ k. some (op0 k)) (some-injective _ instr e)
straight-opcodes Plain.add instr e = ap (λ k. some (op0 k)) (some-injective _ instr e)
straight-opcodes Plain.sub_alt instr e = ap (λ k. some (op0 k)) (some-injective _ instr e)
straight-opcodes Plain.xchg instr e = ap (λ k. some (op0 k)) (some-injective _ instr e)
straight-opcodes Plain.shl instr e = ap (λ k. some (op0 k)) (some-injective _ instr e)
straight-opcodes Plain.sshr instr e = ap (λ k. some (op0 k)) (some-injective _ instr e)
straight-opcodes Plain.shr instr e = ap (λ k. some (op0 k)) (some-injective _ instr e)
straight-opcodes Plain.or instr e = ap (λ k. some (op0 k)) (some-injective _ instr e)
straight-opcodes Plain.xor instr e = ap (λ k. some (op0 k)) (some-injective _ instr e)
straight-opcodes Plain.and instr e = ap (λ k. some (op0 k)) (some-injective _ instr e)
straight-opcodes Plain.eq instr e = ap (λ k. some (op0 k)) (some-injective _ instr e)
straight-opcodes Plain.neq instr e = ap (λ k. some (op0 k)) (some-injective _ instr e)
straight-opcodes Plain.sless instr e = ap (λ k. some (op0 k)) (some-injective _ instr e)
straight-opcodes Plain.sleq instr e = ap (λ k. some (op0 k)) (some-injective _ instr e)
straight-opcodes Plain.sgrtr instr e = ap (λ k. some (op0 k)) (some-injective _ instr e)
straight-opcodes Plain.sgeq instr e = ap (λ k. some (op0 k)) (some-injective _ instr e)
straight-opcodes Plain.not instr e = ap (λ k. some (op0 k)) (some-injective _ instr e)
straight-opcodes Plain.neg instr e = ap (λ k. some (op0 k)) (some-injective _ instr e)
straight-opcodes Plain.invert instr e = ap (λ k. some (op0 k)) (some-injective _ instr e)
straight-opcodes Plain.nop instr e = ap (λ k. some (op0 k)) (some-injective _ instr e)

-- `cip` behind an instruction that goes on.
abbrev pub cip_of : ℕ → Outcome → ℕ
cip_of d (next s) = s.cip
cip_of d (goto target s) = d
cip_of d (stop e s) = d

unfoldable pub KeepsCip : Env → Program → Option Instr → State → Type 0
KeepsCip env p none s = Unit
KeepsCip env p (some i) s = cip_of s.cip (exec env p i s) ≡ s.cip

pub sdiv_alt-cip : (s : State) → cip_of s.cip (exec_sdiv_alt s) ≡ s.cip
unfolding exec_sdiv_alt
sdiv_alt-cip s = elim (Bool-cases (s.pri == 0)) [
  | inl y ↦ rw y refl
  | inr f ↦ elim (Bool-cases (s.pri == modulus - 1 && s.alt == cell_min)) [
    | inl y ↦ rw (f, y) refl
    | inr g ↦
        elim (Bool-cases
          (not (trem s.alt s.pri == 0) && is_neg (bit_xor (trem s.alt s.pri) s.pri))) [
            | inl y ↦ rw (f, g, y) refl
            | inr h ↦ rw (f, g, h) refl
          ]
  ]
]

pub straight-KeepsCip :
    (env : Env) (p : Program) (i : Plain) (s : State) → KeepsCip env p (straight i) s
unfolding KeepsCip exec Load.exec Store.exec Stack.exec Arith.exec exec_sdiv_alt Compare.exec
    Sys.exec
straight-KeepsCip env p Plain.load_i s = elim (Bool-cases (is_bad p s s.pri)) [
  | inl y ↦ rw y refl
  | inr f ↦ rw f refl
]
straight-KeepsCip env p Plain.stor_i s = elim (Bool-cases (is_bad p s s.alt)) [
  | inl y ↦ rw y refl
  | inr f ↦ rw f refl
]
straight-KeepsCip env p Plain.move_pri s = refl
straight-KeepsCip env p Plain.move_alt s = refl
straight-KeepsCip env p Plain.push_pri s = refl
straight-KeepsCip env p Plain.push_alt s = refl
straight-KeepsCip env p Plain.pop_pri s = refl
straight-KeepsCip env p Plain.pop_alt s = refl
straight-KeepsCip env p Plain.swap_pri s = refl
straight-KeepsCip env p Plain.swap_alt s = refl
straight-KeepsCip env p Plain.inc_i s = refl
straight-KeepsCip env p Plain.dec_i s = refl
straight-KeepsCip env p Plain.inc_pri s = refl
straight-KeepsCip env p Plain.dec_pri s = refl
straight-KeepsCip env p Plain.zero_pri s = refl
straight-KeepsCip env p Plain.zero_alt s = refl
straight-KeepsCip env p Plain.ret s = tt
straight-KeepsCip env p Plain.retn s = tt
straight-KeepsCip env p Plain.casetbl s = tt
straight-KeepsCip env p Plain.smul s = refl
straight-KeepsCip env p Plain.sdiv_alt s = sdiv_alt-cip s
straight-KeepsCip env p Plain.add s = refl
straight-KeepsCip env p Plain.sub_alt s = refl
straight-KeepsCip env p Plain.xchg s = refl
straight-KeepsCip env p Plain.shl s = refl
straight-KeepsCip env p Plain.sshr s = refl
straight-KeepsCip env p Plain.shr s = refl
straight-KeepsCip env p Plain.or s = refl
straight-KeepsCip env p Plain.xor s = refl
straight-KeepsCip env p Plain.and s = refl
straight-KeepsCip env p Plain.eq s = refl
straight-KeepsCip env p Plain.neq s = refl
straight-KeepsCip env p Plain.sless s = refl
straight-KeepsCip env p Plain.sleq s = refl
straight-KeepsCip env p Plain.sgrtr s = refl
straight-KeepsCip env p Plain.sgeq s = refl
straight-KeepsCip env p Plain.not s = refl
straight-KeepsCip env p Plain.neg s = refl
straight-KeepsCip env p Plain.invert s = refl
straight-KeepsCip env p Plain.nop s = refl
