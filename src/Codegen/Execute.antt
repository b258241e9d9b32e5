-- ===== src/Codegen/Execute.antt =====
-- The instructions of the abstract machine (amx.c) that the code generator's lines of one word are.
use mathlib.Core.Path.{subst}
use pawn_x.Prelude.{
  ℕ, zero, suc, ◌+◌, ◌≡◌, refl, ap, sym, ◌∙◌, List, [], ◌∷◌, Option, none, some, length, get_elem?,
  arith, Option-cases, inl, inr,
}
use pawn_x.Machine.Rounds.{Outcome-cases}
use pawn_x.Machine.{Program, State, next, goto, stop}
use pawn_x.Machine.Instr.{Instr}
use pawn_x.Machine.Opcodes.{opcodes}
use pawn_x.Machine.Step.{Env, exec, decode, operand, step}
use pawn_x.Assembler.Decoded.{Holds}
use pawn_x.Codegen.Plain.{Plain}
use pawn_x.Codegen.Cells.{plain_code}
use pawn_x.Codegen.Straight.{straight-KeepsCip, straight-opcodes, cip_of, straight, KeepsCip}

-- Rounds of `amx_Exec` that go on with the next instruction.
unfoldable pub advance : ℕ → Env → Program → State → Option State
advance zero env p s = some s
advance (suc n) env p s = elim (step env p s) [
  | next s' ↦ advance n env p s'
  | goto target s' ↦ none
  | stop e s' ↦ none
]

-- The instructions of lines, one behind the other.
unfoldable pub execute : List Plain → Env → Program → State → Option State
execute [] env p s = some s
execute (i ∷ is) env p s = elim (straight i) [
  | none ↦ none
  | some instr ↦ elim (exec env p instr (record s { cip = s.cip + 4 })) [
    | next s' ↦ execute is env p s'
    | goto target s' ↦ none
    | stop e s' ↦ none
  ]
]

unfoldable pub plain_codes : List Plain → List ℕ
plain_codes [] = []
plain_codes (i ∷ is) = plain_code i ∷ plain_codes is

step-straight :
    (env : Env) (p : Program) (i : Plain) (instr : Instr) (s : State)
    → straight i ≡ some instr
    → operand p s.cip 0 ≡ plain_code i
    → step env p s ≡ exec env p instr (record s { cip = s.cip + 4 })
unfolding step decode
step-straight env p i instr s e h =
    let form = ap (get_elem? opcodes) h ∙ straight-opcodes i instr e in rw (step, decode, form) refl

Holds-rest :
    (p : Program) (cip c : ℕ) (cells : List ℕ) → Holds p cip (c ∷ cells) → Holds p (cip + 4) cells
Holds-rest p cip c cells h k d e = ap p.code (omega arith) ∙ h (suc k) d e

-- A program that holds the opcodes of lines executes their instructions.
pub advance-execute :
    (is : List Plain) (env : Env) (p : Program) (s s' : State)
    → Holds p s.cip (plain_codes is)
    → execute is env p s ≡ some s'
    → advance (length is) env p s ≡ some s'
unfolding advance execute plain_codes KeepsCip
advance-execute [] env p s s' h e = e
advance-execute (i ∷ is) env p s s' h e = elim (Option-cases (straight i)) [
  | inl n ↦ absurd (cc (rw (execute, n) at e))
  | inr (instr, q) ↦
      let front : State = record s { cip = s.cip + 4 } in
      let here = step-straight env p i instr s q (h 0 (plain_code i) refl) in
      let kept = subst (λ o. KeepsCip env p o front) q (straight-KeepsCip env p i front) in
      elim (Outcome-cases (exec env p instr front)) [
        | inl c ↦ elim c [
          | inl (x, o) ↦
              let cip : x.cip ≡ s.cip + 4 = sym (ap (cip_of (s.cip + 4)) o) ∙ kept in
              let rest = Holds-rest p s.cip (plain_code i) (plain_codes is) h in
              rw (advance, here, o)
                (advance-execute is env p x s'
                  (subst (λ k. Holds p k (plain_codes is)) (sym cip) rest)
                  (rw (execute, q, o) at e))
          | inr (t, (x, o)) ↦ absurd (cc (rw (execute, q, o) at e))
        ]
        | inr (k, (x, o)) ↦ absurd (cc (rw (execute, q, o) at e))
      ]
]
