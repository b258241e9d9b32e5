-- ===== src/Codegen/Compute.antt =====
-- What the operators of the code generator (sc4.c) compute when the abstract machine (amx.c) runs what
-- the assembler (sc6.c) makes of them.
use mathlib.Core.Path.{subst}
use pawn_x.Prelude.{
  ℕ, ◌+◌, ◌*◌, ◌≡◌, refl, ap, sym, ◌∙◌, List, [], ◌∷◌, ◌++◌, none, some, length, arith,
}
use pawn_x.Machine.{Program, State}
use pawn_x.Machine.Step.{Env}
use pawn_x.Assembler.Table.{cseg}
use pawn_x.Assembler.Number.{Names}
use pawn_x.Assembler.Passes.{read_lines, second_pass}
use pawn_x.Assembler.Decoded.{Holds}
use pawn_x.Codegen.{Gen, run}
use pawn_x.Codegen.Operator.{Operator, operator}
use pawn_x.Codegen.Lines.{text_of, lines_of}
use pawn_x.Codegen.Writes.{Reads, Writes}
use pawn_x.Codegen.Plain.{Plain, text}
use pawn_x.Codegen.Cells.{Codes}
use pawn_x.Codegen.Execute.{advance, plain_codes, advance-execute}
use pawn_x.Codegen.Operation.{
  operator-execute, Result, operator-sent, operator_lines, value, Codes-plains,
}

-- The cells that the assembler makes of a text, if it reads it.
abbrev pub assembled : Names → List ℕ → List ℕ
assembled names t = elim (read_lines (lines_of t)) [
  | none ↦ []
  | some ls ↦ second_pass cseg names ls
]

Codes-assembled :
    (sent sent' : List (List ℕ)) (cells : List ℕ) (names : Names)
    → sent ≡ []
    → Codes sent sent' cells
    → assembled names (text_of sent') ≡ cells
unfolding Codes Writes Reads text_of
Codes-assembled sent sent' cells names start (ls, ((t, (text, (whole, reads))), pass)) =
    let all : text_of sent' ≡ t = text ∙ ap (λ x. text_of x ++ t) start in
    ap (assembled names) all ∙ rw (assembled, reads) (pass names)

length-plain_codes : (is : List Plain) → length (plain_codes is) ≡ length is
unfolding plain_codes
length-plain_codes [] = refl
length-plain_codes (i ∷ is) = omega (arith, length-plain_codes is)

operator-code_idx :
    (o : Operator) (g : Gen) → (operator o g).code_idx ≡ g.code_idx + 4 * length (operator_lines o)
unfolding operator run
operator-code_idx Operator.os_mult g = refl
operator-code_idx Operator.os_div g = refl
operator-code_idx Operator.os_mod g = refl
operator-code_idx Operator.ob_add g = refl
operator-code_idx Operator.ob_sub g = refl
operator-code_idx Operator.ob_sal g = refl
operator-code_idx Operator.os_sar g = refl
operator-code_idx Operator.ou_sar g = refl
operator-code_idx Operator.ob_or g = refl
operator-code_idx Operator.ob_xor g = refl
operator-code_idx Operator.ob_and g = refl
operator-code_idx Operator.ob_eq g = refl
operator-code_idx Operator.ob_ne g = refl
operator-code_idx Operator.relop_prefix g = refl
operator-code_idx Operator.relop_suffix g = refl
operator-code_idx Operator.os_lt g = refl
operator-code_idx Operator.os_le g = refl
operator-code_idx Operator.os_gt g = refl
operator-code_idx Operator.os_ge g = refl
operator-code_idx Operator.lneg g = refl
operator-code_idx Operator.neg g = refl
operator-code_idx Operator.invert g = refl
operator-code_idx Operator.nooperation g = refl

-- What an operator with one result (all but `os_div`, `os_mod` and the prefix and suffix of a chain
-- of relational operators) sends is assembled, whatever the labels are, to as many bytes as the
-- code generator counts for it, and a machine that holds them at its code pointer goes through all
-- of them without an error: PRI is the result of ALT and PRI, the memory, the stack, the frame and
-- the heap are as they were, and the code pointer is behind them.
pub operator-advance :
    (o : Operator) (g : Gen) (names : Names) (env : Env) (p : Program) (s : State) (v : ℕ)
    → g.sent ≡ []
    → value o s.pri s.alt ≡ some v
    → Holds p s.cip (assembled names (text_of (operator o g).sent))
    → (s' : State) × ((advance (length (operator_lines o)) env p s ≡ some s')
        × (Result s s' v (4 * length (assembled names (text_of (operator o g).sent)))
            × ((operator o g).code_idx
                ≡ g.code_idx + 4 * length (assembled names (text_of (operator o g).sent)))))
operator-advance o g names env p s v start e h =
    let is = operator_lines o in
    let codes' =
      subst (λ x. Codes g.sent x (plain_codes is)) (sym (operator-sent o g))
        (Codes-plains is g.sent) in
    let cells : assembled names (text_of (operator o g).sent) ≡ plain_codes is =
      Codes-assembled g.sent (operator o g).sent (plain_codes is) names start codes' in
    let size : length (assembled names (text_of (operator o g).sent)) ≡ length is =
      ap length cells ∙ length-plain_codes is in
    let (s', (runs, (pri, (mem, (stk, (frm, (hea, cip))))))) = operator-execute o env p s v e in
    let held = subst (Holds p s.cip) cells h in
    (
      s',
      (
        advance-execute is env p s s' held runs,
        (
          (pri, (mem, (stk, (frm, (hea, cip ∙ ap (λ n. s.cip + 4 * n) (sym size)))))),
          operator-code_idx o g ∙ ap (λ n. g.code_idx + 4 * n) (sym size),
        ),
      ),
    )
