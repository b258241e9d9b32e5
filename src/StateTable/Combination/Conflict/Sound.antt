-- ===== src/StateTable/Combination/Conflict/Sound.antt =====
-- `state_conflict` of scstate.c against the pairs of combinations of a function.
use text.Mathlib.TextEquality.{eq_iff}
use Prim.Native.String.{String}
use pawn_x.Prelude.{
  ℕ, ◌≡◌, ◌↔◌, ◌⊎◌, inl, inr, refl, arith, true, false, ◌||◌, not, List, [], ◌∷◌, Option, none,
  some, All, ap, Bool-cases, Option-cases,
}
use pawn_x.StateTable.Combination.{StateList, state_getlist_ptr, checkconflict}
use pawn_x.StateTable.Combination.Ids.{Shares, checkconflict-Shares, Shares-checkconflict}
use pawn_x.StateTable.Combination.Conflict.{
  Symbol, Report, entry_func, both, pair_reports, target_reports, targets, sources, state_conflict,
}

-- Two combinations of a function: of one automaton, unless it is the entry function, and without a
-- state in common.
abbrev pub Fits : String → StateList → StateList → Type 0
Fits name p q = ((p.fsa ≡ q.fsa) ⊎ (name ≡ entry_func)) × (¬ (Shares p.states q.states))

both_iff : (x y : Option (List Report)) → (both x y ≡ some []) ↔ ((x ≡ some []) × (y ≡ some []))
unfolding both
both_iff none y = (λ e. absurd (cc e), λ e. absurd (cc e.0))
both_iff (some xs) none = (λ e. absurd (cc e), λ e. absurd (cc e.1))
both_iff (some []) (some ys) = (λ e. (refl, e), λ e. e.1)
both_iff (some (x ∷ xs)) (some ys) = (λ e. absurd (cc e), λ e. absurd (cc e.0))

no_conflict_iff : (xs ys : List ℕ) → (checkconflict xs ys ≡ false) ↔ (¬ (Shares xs ys))
no_conflict_iff xs ys = (
  λ e (s, hx, hy). absurd (cc (Shares-checkconflict xs ys s hx hy, e)),
  λ h. elim (Bool-cases (checkconflict xs ys)) [
    | inl t ↦ absurd (h (checkconflict-Shares xs ys t))
    | inr f ↦ f
  ],
)

silent_iff :
    (name : String) (p q : StateList)
    → (pair_reports name p q ≡ [])
      ↔ (((p.fsa ≡ q.fsa) ⊎ (name ≡ entry_func)) × (checkconflict p.states q.states ≡ false))
unfolding pair_reports
silent_iff name p q = ground (arith, eq_iff name entry_func)

pair_reports_iff : (name : String) (p q : StateList) → (pair_reports name p q ≡ []) ↔ Fits name p q
pair_reports_iff name p q =
    let (to, from) = silent_iff name p q in
    let (to', from') = no_conflict_iff p.states q.states in
    (λ e. ((to e).0, to' (to e).1), λ (a, b). from (a, from' b))

module _ (tab : List StateList) where
  -- The combination that an id of a later item names fits the combination `p`.
  abbrev pub FitsTarget : String → StateList → Option ℕ → Type 0
  FitsTarget name p none = Unit
  FitsTarget name p (some id) =
      (q : StateList) × (state_getlist_ptr id tab ≡ some q) × Fits name p q

  -- The ids in a symbol's list name combinations, and every two of these fit.
  abbrev pub FitsAll : String → List (Option ℕ) → Type 0
  FitsAll name [] = Unit
  FitsAll name (none ∷ ts) = FitsAll name ts
  FitsAll name (some id ∷ ts) =
      (p : StateList) × (state_getlist_ptr id tab ≡ some p)
      × (All (FitsTarget name p) ts)
      × (FitsAll name ts)

  target_iff :
      (name : String) (p : StateList) (t : Option ℕ)
      → (target_reports tab name p t ≡ some []) ↔ FitsTarget name p t
  unfolding target_reports
  target_iff name p none = (λ e. tt, λ h. refl)
  target_iff name p (some id) = elim (Option-cases (state_getlist_ptr id tab)) [
    | inl m ↦ (λ e. absurd (cc (rw (target_reports, m) at e)), λ (q, l, h). absurd (cc (m, l)))
    | inr (q, l) ↦ (
      λ e. (q, l, (pair_reports_iff name p q).0 (cc (rw (target_reports, l) at e))),
      λ (q', l', h). rw (target_reports, l') (ap some ((pair_reports_iff name p q').1 h)),
    )
  ]

  targets_iff :
      (name : String) (p : StateList) (ts : List (Option ℕ))
      → (targets tab name p ts ≡ some []) ↔ All (FitsTarget name p) ts
  unfolding targets
  targets_iff name p [] = (λ e. tt, λ h. refl)
  targets_iff name p (t ∷ ts) =
      let (split, join) = both_iff (target_reports tab name p t) (targets tab name p ts) in
      (
        λ e. ((target_iff name p t).0 (split e).0, (targets_iff name p ts).0 (split e).1),
        λ h. join ((target_iff name p t).1 h.0, (targets_iff name p ts).1 h.1),
      )

  sources_iff :
      (name : String) (ts : List (Option ℕ)) → (sources tab name ts ≡ some []) ↔ FitsAll name ts
  unfolding sources
  sources_iff name [] = (λ e. tt, λ h. refl)
  sources_iff name (none ∷ ts) = sources_iff name ts
  sources_iff name (some id ∷ ts) = elim (Option-cases (state_getlist_ptr id tab)) [
    | inl m ↦ (λ e. absurd (cc (rw (sources, m) at e)), λ (q, l, h, k). absurd (cc (m, l)))
    | inr (p, l) ↦ (
      λ e.
          let (split, join) = both_iff (targets tab name p ts) (sources tab name ts) in
          let here = split (rw (sources, l) at e) in
          (p, l, (targets_iff name p ts).0 here.0, (sources_iff name ts).0 here.1),
      λ (p', l', h, k).
          rw (sources, l')
            ((both_iff (targets tab name p' ts) (sources tab name ts)).1
              ((targets_iff name p' ts).1 h, (sources_iff name ts).1 k)),
    )
  ]

-- A function with states, which `state_conflict` looks at.
abbrev pub IsChecked : Symbol → Type 0
IsChecked s = (s.is_child ≡ false) × (s.is_function ≡ true)

-- `state_conflict` passes its assertions and reports nothing exactly if, for every function that is
-- no child symbol, all its state lists but -1, which it skips, are in the table, and every two of
-- them are of one automaton, unless the function is `entry`, and have no state in common.
pub state_conflict_iff :
    (tab : List StateList) (symbols : List Symbol)
    → (state_conflict tab symbols ≡ some [])
      ↔ All (λ s. IsChecked s → FitsAll tab s.name s.states) symbols
unfolding state_conflict
state_conflict_iff tab [] = (λ e. tt, λ h. refl)
state_conflict_iff tab (s ∷ ss) = elim (Bool-cases (s.is_child || not s.is_function)) [
  | inl t ↦ (
    λ e. (λ c. absurd (ground (arith, t, c)), (state_conflict_iff tab ss).0 (rw t at e)),
    λ h. rw t ((state_conflict_iff tab ss).1 h.1),
  )
  | inr f ↦
      let (split, join) = both_iff (sources tab s.name s.states) (state_conflict tab ss) in
      (
        λ e.
            let here = split (rw f at e) in
            (λ c. (sources_iff tab s.name s.states).0 here.0, (state_conflict_iff tab ss).0 here.1),
        λ h. rw f (
            join (
              (sources_iff tab s.name s.states).1 (h.0 (ground (arith, f))),
              (state_conflict_iff tab ss).1 h.1,
            )),
      )
]
