-- ===== src/Machine/Rounds.antt =====
-- The bound on the rounds of `run`.
use pawn_x.Prelude.{ℕ, zero, suc, ◌+◌, ◌≡◌, ◌⊎◌, inl, inr, refl, ap, ◌∙◌, arith, some}
use pawn_x.Machine.{Program, State, Outcome, next, goto, stop}
use pawn_x.Machine.Step.{Env, step, run}

pub Outcome-cases :
    (o : Outcome)
    → (((s : State) × (o ≡ next s)) ⊎ ((t : ℕ) × ((s : State) × (o ≡ goto t s))))
      ⊎ ((e : ℕ) × ((s : State) × (o ≡ stop e s)))
Outcome-cases (next s) = inl (inl (s, refl))
Outcome-cases (goto t s) = inl (inr (t, (s, refl)))
Outcome-cases (stop e s) = inr (e, (s, refl))

-- A run that ends within some rounds ends in the same way within any more rounds.
pub run-more :
    (rounds extra : ℕ) (env : Env) (p : Program) (s : State) (r : ℕ × State)
    → run rounds env p s ≡ some r
    → run (rounds + extra) env p s ≡ some r
unfolding run
run-more zero extra env p s r e = absurd (cc e)
run-more (suc rounds) extra env p s r e =
    let again : run (suc (rounds + extra)) env p s ≡ some r = elim (Outcome-cases (step env p s)) [
      | inl c ↦ elim c [
        | inl (s', q) ↦ rw (run, q) (run-more rounds extra env p s' r (rw (run, q) at e))
        | inr (t, (s', q)) ↦
            rw (run, q) (run-more rounds extra env p (record s' { cip = t }) r (rw (run, q) at e))
      ]
      | inr (c, (s', q)) ↦ rw (run, q) (rw (run, q) at e)
    ] in
    let e₀ : suc rounds + extra ≡ suc (rounds + extra) = omega arith in
    ap (λ k. run k env p s) e₀ ∙ again
