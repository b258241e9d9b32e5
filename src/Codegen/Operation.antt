-- ===== src/Codegen/Operation.antt =====
-- The operators of the code generator (sc4.c) as instructions of the abstract machine (amx.c).
use Prim.Native.Nat.{bit_and, bit_or, bit_xor}
use mathlib.Core.Option.{some-injective}
use pawn_x.Prelude.{
  ℕ, ◌+◌, ◌*◌, ◌≡◌, refl, ◌==◌, not, List, [], ◌∷◌, Option, none, some, length, arith,
}
use pawn_x.Cell
use pawn_x.Cell.{add, sub, mul, shl, shr, sshr, slt, sle, of_bool}
use pawn_x.Machine.{Program, State}
use pawn_x.Machine.Store
use pawn_x.Machine.Stack
use pawn_x.Machine.Arith
use pawn_x.Machine.Compare
use pawn_x.Machine.Sys
use pawn_x.Machine.Step.{Env, exec}
use pawn_x.Codegen.{Gen, run}
use pawn_x.Codegen.Operator.{Operator, operator}
use pawn_x.Codegen.Plain.{Plain, text}
use pawn_x.Codegen.Cells.{Codes, Codes-none, Codes-trans, Codes-plain, plain_code}
use pawn_x.Codegen.Execute.{execute, plain_codes}

-- The lines of an operator.
abbrev pub operator_lines : Operator → List Plain
operator_lines Operator.os_mult = Plain.smul ∷ []
operator_lines Operator.os_div = Plain.sdiv_alt ∷ []
operator_lines Operator.os_mod = Plain.sdiv_alt ∷ Plain.move_pri ∷ []
operator_lines Operator.ob_add = Plain.add ∷ []
operator_lines Operator.ob_sub = Plain.sub_alt ∷ []
operator_lines Operator.ob_sal = Plain.xchg ∷ Plain.shl ∷ []
operator_lines Operator.os_sar = Plain.xchg ∷ Plain.sshr ∷ []
operator_lines Operator.ou_sar = Plain.xchg ∷ Plain.shr ∷ []
operator_lines Operator.ob_or = Plain.or ∷ []
operator_lines Operator.ob_xor = Plain.xor ∷ []
operator_lines Operator.ob_and = Plain.and ∷ []
operator_lines Operator.ob_eq = Plain.eq ∷ []
operator_lines Operator.ob_ne = Plain.neq ∷ []
operator_lines Operator.relop_prefix = Plain.push_pri ∷ Plain.move_pri ∷ []
operator_lines Operator.relop_suffix = Plain.swap_alt ∷ Plain.and ∷ Plain.pop_alt ∷ []
operator_lines Operator.os_lt = Plain.xchg ∷ Plain.sless ∷ []
operator_lines Operator.os_le = Plain.xchg ∷ Plain.sleq ∷ []
operator_lines Operator.os_gt = Plain.xchg ∷ Plain.sgrtr ∷ []
operator_lines Operator.os_ge = Plain.xchg ∷ Plain.sgeq ∷ []
operator_lines Operator.lneg = Plain.not ∷ []
operator_lines Operator.neg = Plain.neg ∷ []
operator_lines Operator.invert = Plain.invert ∷ []
operator_lines Operator.nooperation = Plain.nop ∷ []

-- The result of an operator on PRI and ALT, for those that have but one; the left operand is ALT.
unfoldable pub value : Operator → ℕ → ℕ → Option ℕ
value Operator.os_mult pri alt = some (mul pri alt)
value Operator.os_div pri alt = none
value Operator.os_mod pri alt = none
value Operator.ob_add pri alt = some (add pri alt)
value Operator.ob_sub pri alt = some (sub alt pri)
value Operator.ob_sal pri alt = some (shl alt pri)
value Operator.os_sar pri alt = some (sshr alt pri)
value Operator.ou_sar pri alt = some (shr alt pri)
value Operator.ob_or pri alt = some (bit_or pri alt)
value Operator.ob_xor pri alt = some (bit_xor pri alt)
value Operator.ob_and pri alt = some (bit_and pri alt)
value Operator.ob_eq pri alt = some (of_bool (pri == alt))
value Operator.ob_ne pri alt = some (of_bool (not (pri == alt)))
value Operator.relop_prefix pri alt = none
value Operator.relop_suffix pri alt = none
value Operator.os_lt pri alt = some (of_bool (slt alt pri))
value Operator.os_le pri alt = some (of_bool (sle alt pri))
value Operator.os_gt pri alt = some (of_bool (slt pri alt))
value Operator.os_ge pri alt = some (of_bool (sle pri alt))
value Operator.lneg pri alt = some (of_bool (pri == 0))
value Operator.neg pri alt = some (Cell.neg pri)
value Operator.invert pri alt = some (Cell.invert pri)
value Operator.nooperation pri alt = some pri

pub plain_sent : List Plain → List (List ℕ) → List (List ℕ)
plain_sent [] sent = sent
plain_sent (i ∷ is) sent = plain_sent is (text i ∷ sent)

pub Codes-plains :
    (is : List Plain) (sent : List (List ℕ)) → Codes sent (plain_sent is sent) (plain_codes is)
unfolding plain_sent plain_codes
Codes-plains [] sent = Codes-none sent
Codes-plains (i ∷ is) sent =
    Codes-trans sent (text i ∷ sent) (plain_sent is (text i ∷ sent)) (plain_code i ∷ [])
      (plain_codes is) (Codes-plain i sent) (Codes-plains is (text i ∷ sent))

pub operator-sent :
    (o : Operator) (g : Gen) → (operator o g).sent ≡ plain_sent (operator_lines o) g.sent
unfolding operator run plain_sent
operator-sent Operator.os_mult g = refl
operator-sent Operator.os_div g = refl
operator-sent Operator.os_mod g = refl
operator-sent Operator.ob_add g = refl
operator-sent Operator.ob_sub g = refl
operator-sent Operator.ob_sal g = refl
operator-sent Operator.os_sar g = refl
operator-sent Operator.ou_sar g = refl
operator-sent Operator.ob_or g = refl
operator-sent Operator.ob_xor g = refl
operator-sent Operator.ob_and g = refl
operator-sent Operator.ob_eq g = refl
operator-sent Operator.ob_ne g = refl
operator-sent Operator.relop_prefix g = refl
operator-sent Operator.relop_suffix g = refl
operator-sent Operator.os_lt g = refl
operator-sent Operator.os_le g = refl
operator-sent Operator.os_gt g = refl
operator-sent Operator.os_ge g = refl
operator-sent Operator.lneg g = refl
operator-sent Operator.neg g = refl
operator-sent Operator.invert g = refl
operator-sent Operator.nooperation g = refl

-- A state behind an operator, with its result and where the next instruction is.
abbrev pub Result : State → State → ℕ → ℕ → Type 0
Result s s' v size =
    (s'.pri ≡ v)
    × ((s'.mem ≡ s.mem)
        × ((s'.stk ≡ s.stk) × ((s'.frm ≡ s.frm) × ((s'.hea ≡ s.hea) × (s'.cip ≡ s.cip + size)))))

pub operator-execute :
    (o : Operator) (env : Env) (p : Program) (s : State) (v : ℕ)
    → value o s.pri s.alt ≡ some v
    → (s' : State) × ((execute (operator_lines o) env p s ≡ some s')
        × Result s s' v (4 * length (operator_lines o)))
unfolding value execute exec Store.exec Stack.exec Arith.exec Compare.exec Sys.exec
operator-execute Operator.os_mult env p s v e =
    (_, (refl, (some-injective _ v e, (refl, (refl, (refl, (refl, omega arith)))))))
operator-execute Operator.os_div env p s v e = absurd (cc e)
operator-execute Operator.os_mod env p s v e = absurd (cc e)
operator-execute Operator.ob_add env p s v e =
    (_, (refl, (some-injective _ v e, (refl, (refl, (refl, (refl, omega arith)))))))
operator-execute Operator.ob_sub env p s v e =
    (_, (refl, (some-injective _ v e, (refl, (refl, (refl, (refl, omega arith)))))))
operator-execute Operator.ob_sal env p s v e =
    (_, (refl, (some-injective _ v e, (refl, (refl, (refl, (refl, omega arith)))))))
operator-execute Operator.os_sar env p s v e =
    (_, (refl, (some-injective _ v e, (refl, (refl, (refl, (refl, omega arith)))))))
operator-execute Operator.ou_sar env p s v e =
    (_, (refl, (some-injective _ v e, (refl, (refl, (refl, (refl, omega arith)))))))
operator-execute Operator.ob_or env p s v e =
    (_, (refl, (some-injective _ v e, (refl, (refl, (refl, (refl, omega arith)))))))
operator-execute Operator.ob_xor env p s v e =
    (_, (refl, (some-injective _ v e, (refl, (refl, (refl, (refl, omega arith)))))))
operator-execute Operator.ob_and env p s v e =
    (_, (refl, (some-injective _ v e, (refl, (refl, (refl, (refl, omega arith)))))))
operator-execute Operator.ob_eq env p s v e =
    (_, (refl, (some-injective _ v e, (refl, (refl, (refl, (refl, omega arith)))))))
operator-execute Operator.ob_ne env p s v e =
    (_, (refl, (some-injective _ v e, (refl, (refl, (refl, (refl, omega arith)))))))
operator-execute Operator.relop_prefix env p s v e = absurd (cc e)
operator-execute Operator.relop_suffix env p s v e = absurd (cc e)
operator-execute Operator.os_lt env p s v e =
    (_, (refl, (some-injective _ v e, (refl, (refl, (refl, (refl, omega arith)))))))
operator-execute Operator.os_le env p s v e =
    (_, (refl, (some-injective _ v e, (refl, (refl, (refl, (refl, omega arith)))))))
operator-execute Operator.os_gt env p s v e =
    (_, (refl, (some-injective _ v e, (refl, (refl, (refl, (refl, omega arith)))))))
operator-execute Operator.os_ge env p s v e =
    (_, (refl, (some-injective _ v e, (refl, (refl, (refl, (refl, omega arith)))))))
operator-execute Operator.lneg env p s v e =
    (_, (refl, (some-injective _ v e, (refl, (refl, (refl, (refl, omega arith)))))))
operator-execute Operator.neg env p s v e =
    (_, (refl, (some-injective _ v e, (refl, (refl, (refl, (refl, omega arith)))))))
operator-execute Operator.invert env p s v e =
    (_, (refl, (some-injective _ v e, (refl, (refl, (refl, (refl, omega arith)))))))
operator-execute Operator.nooperation env p s v e =
    (_, (refl, (some-injective _ v e, (refl, (refl, (refl, (refl, omega arith)))))))
