-- ===== src/Assembler/Decoded.antt =====
-- The table `opcodelist` (compiler/source/compiler/sc6.c) against the opcodes that `amx_Exec` decodes.
use mathlib.Core.Path.{subst}
use mathlib.Core.Option.{some-injective}
use pawn_x.Prelude.{
  ℕ, zero, suc, ◌+◌, ◌≡◌, ◌≢◌, refl, ap, ◌∙◌, arith, Bool, true, false, ◌&&◌, ◌||◌, ◌==◌, inl, inr,
  and_lem, equal_lem, List, [], ◌∷◌, Option, none, some, length, get_elem?, Option-cases,
}
use pawn_x.Machine.Opcodes.{
  Form, op0, op1, op2, op3, op4, op5, opcodes, memory_opcodes, arith_opcodes, other_opcodes,
}
use pawn_x.Machine.Instr.{Instr}
use pawn_x.Machine.{Program}
use pawn_x.Machine.Step.{operand, decode}
use pawn_x.Assembler.Emit.{written_cells}
use pawn_x.Assembler.Number.{Names}
use pawn_x.Assembler.Passes.Layout.{length-getparams}
use pawn_x.Assembler.Table.{
  Opcode, Func, noop, set_currentfile, parm0, parm1, parm2, parm3, parm4, parm5, do_dump, do_dumpn,
  do_call, do_jump, do_case, opcodelist, codes_a_to_i, codes_j_to_o, codes_p_to_z,
}

-- The operands of an instruction that the assembler writes; `none` for a directive.
abbrev pub operands : Func → Option ℕ
operands noop = none
operands set_currentfile = none
operands parm0 = some 0
operands parm1 = some 1
operands parm2 = some 2
operands parm3 = some 3
operands parm4 = some 4
operands parm5 = some 5
operands do_dump = none
operands do_dumpn = none
operands do_call = some 1
operands do_jump = some 1
operands do_case = none

abbrev pub form_operands : Form → Option ℕ
form_operands Form.none = none
form_operands (op0 i) = some 0
form_operands (op1 i) = some 1
form_operands (op2 i) = some 2
form_operands (op3 i) = some 3
form_operands (op4 i) = some 4
form_operands (op5 i) = some 5

-- The opcode of `casetbl`, which marks a table and is not executed.
abbrev pub casetbl : ℕ
casetbl = 130

abbrev agrees_at : Option ℕ → Option Form → Bool
agrees_at none form = true
agrees_at (some n) none = false
agrees_at (some n) (some form) = elim (form_operands form) [ none ↦ false | some m ↦ m == n ]

abbrev agrees : Opcode → Bool
agrees e = (e.opcode == casetbl) || agrees_at (operands (e.func)) (get_elem? opcodes (e.opcode))

all_agree : List Opcode → Bool
all_agree [] = true
all_agree (e ∷ es) = agrees e && all_agree es

all_agree_lem :
    (es : List Opcode) (i : ℕ) (e : Opcode)
    → all_agree es ≡ true
    → get_elem? es i ≡ some e
    → agrees e ≡ true
unfolding all_agree
all_agree_lem [] i e h g = absurd (cc g)
all_agree_lem (d ∷ es) zero e h g =
    subst (λ x. agrees x ≡ true) (some-injective d e g) (and_lem (agrees d) (all_agree es) h).0
all_agree_lem (d ∷ es) (suc i) e h g =
    all_agree_lem es i e (and_lem (agrees d) (all_agree es) h).1 g

opcodelist_agrees : all_agree opcodelist ≡ true
unfolding all_agree opcodelist codes_a_to_i codes_j_to_o codes_p_to_z opcodes memory_opcodes
    arith_opcodes other_opcodes
opcodelist_agrees = refl

or_lem : (a b : Bool) → a ≡ false → (a || b) ≡ true → b ≡ true
or_lem true b e h = absurd (cc e)
or_lem false b e h = h

agrees_at_lem :
    (n : ℕ) (form : Option Form)
    → agrees_at (some n) form ≡ true
    → (f : Form) × ((form ≡ some f) × (form_operands f ≡ some n))
agrees_at_lem n none h = absurd (cc h)
agrees_at_lem n (some f) h = elim (Option-cases (form_operands f)) [
  | inl e ↦ absurd (cc (rw (agrees_at, e) at h))
  | inr (m, e) ↦
      let same : m ≡ n = equal_lem m n (rw (agrees_at, e) at h) in
      (f, (refl, e ∙ ap (λ k. some k) same))
]

Decodes : Program → ℕ → ℕ → Type 0
Decodes p cip n = (i : Instr) × (decode p cip ≡ some (i, n))

Decodes-same :
    (p : Program) (cip k n : ℕ) (i : Instr)
    → decode p cip ≡ some (i, k)
    → ◌≡◌ {A = Option ℕ} (some k) (some n)
    → Decodes p cip n
unfolding Decodes
Decodes-same p cip k n i d e = (i, d ∙ ap (λ m. some (i, m)) (some-injective k n e))

decode_lem :
    (p : Program) (cip n : ℕ) (f : Form)
    → get_elem? opcodes (operand p cip 0) ≡ some f
    → form_operands f ≡ some n
    → Decodes p cip n
unfolding decode
decode_lem p cip n Form.none g e = absurd (cc e)
decode_lem p cip n (op0 i) g e = Decodes-same p cip 0 n i (rw (decode, g) refl) e
decode_lem p cip n (op1 i) g e =
    let arg = operand p cip in Decodes-same p cip 1 n (i (arg 1)) (rw (decode, g) refl) e
decode_lem p cip n (op2 i) g e =
    let arg = operand p cip in Decodes-same p cip 2 n (i (arg 1) (arg 2)) (rw (decode, g) refl) e
decode_lem p cip n (op3 i) g e =
    let arg = operand p cip in
    Decodes-same p cip 3 n (i (arg 1) (arg 2) (arg 3)) (rw (decode, g) refl) e
decode_lem p cip n (op4 i) g e =
    let arg = operand p cip in
    Decodes-same p cip 4 n (i (arg 1) (arg 2) (arg 3) (arg 4)) (rw (decode, g) refl) e
decode_lem p cip n (op5 i) g e =
    let arg = operand p cip in
    Decodes-same p cip 5 n (i (arg 1) (arg 2) (arg 3) (arg 4) (arg 5)) (rw (decode, g) refl) e

written_lem :
    (func : Func) (names : Names) (params : List ℕ) (opcode n : ℕ)
    → operands func ≡ some n
    → (length (written_cells func names params opcode) ≡ n + 1)
      × (get_elem? (written_cells func names params opcode) 0 ≡ some opcode)
unfolding written_cells
written_lem noop names params opcode n e = absurd (cc e)
written_lem set_currentfile names params opcode n e = absurd (cc e)
written_lem parm0 names params opcode n e = (omega (arith, some-injective 0 n e), refl)
written_lem parm1 names params opcode n e =
    (omega (arith, some-injective 1 n e, length-getparams 1 names params), refl)
written_lem parm2 names params opcode n e =
    (omega (arith, some-injective 2 n e, length-getparams 2 names params), refl)
written_lem parm3 names params opcode n e =
    (omega (arith, some-injective 3 n e, length-getparams 3 names params), refl)
written_lem parm4 names params opcode n e =
    (omega (arith, some-injective 4 n e, length-getparams 4 names params), refl)
written_lem parm5 names params opcode n e =
    (omega (arith, some-injective 5 n e, length-getparams 5 names params), refl)
written_lem do_dump names params opcode n e = absurd (cc e)
written_lem do_dumpn names params opcode n e = absurd (cc e)
written_lem do_call names params opcode n e = (omega (arith, some-injective 1 n e), refl)
written_lem do_jump names params opcode n e = (omega (arith, some-injective 1 n e), refl)
written_lem do_case names params opcode n e = absurd (cc e)

-- The cells stand in the code of a program, from an address on.
abbrev pub Holds : Program → ℕ → List ℕ → Type 0
Holds p cip cells = (k c : ℕ) → get_elem? cells k ≡ some c → operand p cip k ≡ c

-- Where a program holds the cells that are written for an instruction, any but `casetbl`, the
-- interpreter decodes an instruction with as many operands as the cells have behind the opcode.
pub decode-written_cells :
    (i n : ℕ) (e : Opcode) (names : Names) (params : List ℕ) (p : Program) (cip : ℕ)
    → get_elem? opcodelist i ≡ some e
    → operands (e.func) ≡ some n
    → e.opcode ≢ casetbl
    → Holds p cip (written_cells (e.func) names params (e.opcode))
    → (length (written_cells (e.func) names params (e.opcode)) ≡ n + 1)
      × ((instr : Instr) × (decode p cip ≡ some (instr, n)))
unfolding Decodes
decode-written_cells i n e names params p cip g o c h =
    let (l, first) = written_lem (e.func) names params (e.opcode) n o in
    let other : (e.opcode == casetbl) ≡ false = ground arith in
    let agree =
      subst (λ m. agrees_at m (get_elem? opcodes (e.opcode)) ≡ true) o
        (or_lem (e.opcode == casetbl) (agrees_at (operands (e.func)) (get_elem? opcodes (e.opcode)))
          other (all_agree_lem opcodelist i e opcodelist_agrees g)) in
    let (f, (there, counts)) = agrees_at_lem n (get_elem? opcodes (e.opcode)) agree in
    (l, decode_lem p cip n f (ap (get_elem? opcodes) (h 0 (e.opcode) first) ∙ there) counts)
