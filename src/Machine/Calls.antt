-- ===== src/Machine/Calls.antt =====
-- The calling sequence: OP_CALL, OP_PROC and OP_RETN (amx.c).
use pawn_x.Prelude.{ℕ, ◌+◌, ◌-◌, ◌≤◌, ◌<◌, ◌≡◌, inr, refl, sym, ap, ◌∙◌, arith, leb, false}
use pawn_x.Cell.{modulus, add, sub, slt}
use pawn_x.Memory.{read, write}
use pawn_x.Memory.Laws.{read-write_self, read-write_far}
use pawn_x.Machine.{Program, State, Outcome, next, goto, stop, push, stkmargin}
use pawn_x.Machine.Jump
use pawn_x.Machine.Jump.{call, retn}
use pawn_x.Machine.Stack
use pawn_x.Machine.Stack.{proc}

-- OP_CALL, and OP_PROC at its target.
abbrev pub enter : Program → ℕ → State → Outcome
enter p target s = elim (Jump.exec p (call target) s) [
  | goto t s' ↦ Stack.exec p proc (record s' { cip = t + 4 })
  | next s' ↦ next s'
  | stop error s' ↦ stop error s'
]

-- The state in the function: the return address and the old frame are on the stack.
abbrev pub entered : ℕ → State → State
entered target s =
    let s' : State = push (push s s.cip) s.frm in record s' { frm = s'.stk; cip = target + 4 }

-- OP_RETN leaves for the address under the frame pointer, with the frame pointer it finds there and
-- without the arguments, whose size is on top.
retn_lem :
    (p : Program) (s : State)
    → s.stk + 12 ≤ modulus
    → read s.mem (s.stk + 4) < p.codesize
    → Jump.exec p retn s
      ≡ goto (read s.mem (s.stk + 4)) (record s {
        frm = read s.mem s.stk;
        stk = add (s.stk + 8) (add (read s.mem (s.stk + 8)) 4);
        amx = record s.amx { stk = add (s.stk + 8) (add (read s.mem (s.stk + 8)) 4) };
      })
unfolding Jump.exec
retn_lem p s h k =
    let e₁ : add s.stk 4 ≡ s.stk + 4 = omega arith in
    let e₂ : add (s.stk + 4) 4 ≡ s.stk + 8 = omega arith in
    let e₃ : leb p.codesize (read s.mem (s.stk + 4)) ≡ false = ground arith in rw (e₁, e₂, e₃) refl

module _ (target : ℕ) (s : State) (h₁ : 8 ≤ s.stk) (h₂ : s.stk + 4 ≤ modulus) where
  below₁ : sub s.stk 4 ≡ s.stk - 4
  below₁ = omega arith

  below₂ : sub (sub s.stk 4) 4 ≡ s.stk - 8
  below₂ = omega arith

  enter_lem :
      (p : Program)
      → slt (s.stk - 8) (add s.hea stkmargin) ≡ false
      → enter p target s ≡ next (entered target s)
  unfolding Jump.exec Stack.exec
  enter_lem p margin =
      let margin' : slt (sub (sub s.stk 4) 4) (add s.hea stkmargin) ≡ false =
        ap (λ v. slt v (add s.hea stkmargin)) below₂ ∙ margin in
      rw margin' refl

  -- What is on the stack then.
  saved_frm : s.frm < modulus → read (entered target s).mem (s.stk - 8) ≡ s.frm
  saved_frm h =
      rw (sym below₂) (
        read-write_self (write s.mem (sub s.stk 4) s.cip) (sub (sub s.stk 4) 4) s.frm ∙ omega arith)

  saved_cip : s.cip < modulus → read (entered target s).mem (s.stk - 4) ≡ s.cip
  saved_cip h =
      read-write_far (write s.mem (sub s.stk 4) s.cip) (sub (sub s.stk 4) 4) s.frm (s.stk - 4)
        (omega (arith, below₂))
      ∙ (ap (read (write s.mem (sub s.stk 4) s.cip)) (sym below₁)
          ∙ (read-write_self s.mem (sub s.stk 4) s.cip ∙ omega arith))

  arguments : read (entered target s).mem s.stk ≡ read s.mem s.stk
  arguments =
      read-write_far (write s.mem (sub s.stk 4) s.cip) (sub (sub s.stk 4) 4) s.frm s.stk
        (inr (omega (arith, below₂)))
      ∙ read-write_far s.mem (sub s.stk 4) s.cip s.stk (inr (omega (arith, below₁)))

-- OP_CALL and OP_PROC enter a function, if the stack and the registers are in bounds and the check
-- of the margin in OP_PROC passes. If the function then leaves the saved cells and the size of the
-- arguments in place and drops its locals, OP_RETN goes back behind the call with the caller's
-- frame pointer and without the arguments.
pub retn-enter :
    (p : Program) (target : ℕ) (s : State) (s' : State)
    → 8 ≤ s.stk
    → s.stk + 4 ≤ modulus
    → s.frm < modulus
    → s.cip < p.codesize
    → p.codesize ≤ modulus
    → slt (s.stk - 8) (add s.hea stkmargin) ≡ false
    → s'.stk ≡ s.stk - 8
    → read s'.mem (s.stk - 8) ≡ read (entered target s).mem (s.stk - 8)
    → read s'.mem (s.stk - 4) ≡ read (entered target s).mem (s.stk - 4)
    → read s'.mem s.stk ≡ read (entered target s).mem s.stk
    → (enter p target s ≡ next (entered target s))
      × (Jump.exec p retn s'
          ≡ goto s.cip (record s' {
            frm = s.frm;
            stk = add s.stk (add (read s.mem s.stk) 4);
            amx = record s'.amx { stk = add s.stk (add (read s.mem s.stk) 4) };
          }))
retn-enter p target s s' h₁ h₂ h₃ h₄ h₅ margin e r₁ r₂ r₃ =
    let a₁ : s'.stk + 4 ≡ s.stk - 4 = omega arith in
    let a₂ : s'.stk + 8 ≡ s.stk = omega arith in
    let w₁ : read s'.mem s'.stk ≡ s.frm = ap (read s'.mem) e ∙ (r₁ ∙ saved_frm target s h₁ h₂ h₃) in
    let w₂ : read s'.mem (s'.stk + 4) ≡ s.cip =
      ap (read s'.mem) a₁ ∙ (r₂ ∙ saved_cip target s h₁ h₂ (omega arith)) in
    let w₃ : read s'.mem (s'.stk + 8) ≡ read s.mem s.stk =
      ap (read s'.mem) a₂ ∙ (r₃ ∙ arguments target s h₁ h₂) in
    (
      enter_lem target s h₁ h₂ p margin,
      retn_lem p s' (omega arith) (omega (arith, w₂)) ∙ rw (w₁, w₂, w₃, a₂) refl,
    )
