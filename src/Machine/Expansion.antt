-- ===== src/Machine/Expansion.antt =====
-- The macro instructions of Macro against the sequences of plain instructions that they stand for.
-- OP_SYSREQ_N is in Sys: its sequence `push.c`, `sysreq.c`, `stack` also changes `alt`.
use pawn_x.Prelude.{◌≡◌, refl, List, [], ◌∷◌, map}
use pawn_x.Machine.{Program, State, Outcome, next, goto, stop}
use pawn_x.Machine.Load
use pawn_x.Machine.Load.{Load, load_pri, load_alt, load_s_pri, load_s_alt, const_pri}
use pawn_x.Machine.Store
use pawn_x.Machine.Store.{Store, stor_pri, stor_s_pri}
use pawn_x.Machine.Stack
use pawn_x.Machine.Stack.{Stack, push_c, push_m, push_s, push_adr}
use pawn_x.Machine.Macro
use pawn_x.Machine.Macro.{
  Macro, push2, push3, push4, push5, push2_s, push3_s, push4_s, push5_s, push2_c, push3_c, push4_c,
  push5_c, push2_adr, push3_adr, push4_adr, push5_adr, load_both, load_s_both, const_m, const_s,
}

-- A plain instruction of a sequence.
pub data Plain : Type 0 where
  load : Load → Plain
  store : Store → Plain
  stack : Stack → Plain

abbrev pub exec_plain : Program → Plain → State → Outcome
exec_plain p (load i) s = Load.exec p i s
exec_plain p (store i) s = Store.exec p i s
exec_plain p (stack i) s = Stack.exec p i s

-- Instructions one after the other, up to one that does not fall through.
abbrev pub sequence : Program → List Plain → State → Outcome
sequence p [] s = next s
sequence p (i ∷ is) s = elim (exec_plain p i s) [
  | next s' ↦ sequence p is s'
  | goto target s' ↦ goto target s'
  | stop error s' ↦ stop error s'
]

abbrev pub expansion : Macro → List Plain
expansion (push2 a b) = map (λ x. stack (push_m x)) (a ∷ b ∷ [])
expansion (push3 a b c) = map (λ x. stack (push_m x)) (a ∷ b ∷ c ∷ [])
expansion (push4 a b c d) = map (λ x. stack (push_m x)) (a ∷ b ∷ c ∷ d ∷ [])
expansion (push5 a b c d e) = map (λ x. stack (push_m x)) (a ∷ b ∷ c ∷ d ∷ e ∷ [])
expansion (push2_s a b) = map (λ x. stack (push_s x)) (a ∷ b ∷ [])
expansion (push3_s a b c) = map (λ x. stack (push_s x)) (a ∷ b ∷ c ∷ [])
expansion (push4_s a b c d) = map (λ x. stack (push_s x)) (a ∷ b ∷ c ∷ d ∷ [])
expansion (push5_s a b c d e) = map (λ x. stack (push_s x)) (a ∷ b ∷ c ∷ d ∷ e ∷ [])
expansion (push2_c a b) = map (λ x. stack (push_c x)) (a ∷ b ∷ [])
expansion (push3_c a b c) = map (λ x. stack (push_c x)) (a ∷ b ∷ c ∷ [])
expansion (push4_c a b c d) = map (λ x. stack (push_c x)) (a ∷ b ∷ c ∷ d ∷ [])
expansion (push5_c a b c d e) = map (λ x. stack (push_c x)) (a ∷ b ∷ c ∷ d ∷ e ∷ [])
expansion (push2_adr a b) = map (λ x. stack (push_adr x)) (a ∷ b ∷ [])
expansion (push3_adr a b c) = map (λ x. stack (push_adr x)) (a ∷ b ∷ c ∷ [])
expansion (push4_adr a b c d) = map (λ x. stack (push_adr x)) (a ∷ b ∷ c ∷ d ∷ [])
expansion (push5_adr a b c d e) = map (λ x. stack (push_adr x)) (a ∷ b ∷ c ∷ d ∷ e ∷ [])
expansion (load_both a b) = load (load_pri a) ∷ load (load_alt b) ∷ []
expansion (load_s_both a b) = load (load_s_pri a) ∷ load (load_s_alt b) ∷ []
expansion (const_m offs v) = load (const_pri v) ∷ store (stor_pri offs) ∷ []
expansion (const_s offs v) = load (const_pri v) ∷ store (stor_s_pri offs) ∷ []

-- The two instructions that store a constant leave `pri` alone, which their sequence changes.
abbrev pub keep : Macro → State → Outcome → Outcome
keep (const_m offs v) s (next s') = next (record s' { pri = s.pri })
keep (const_s offs v) s (next s') = next (record s' { pri = s.pri })
keep i s o = o

-- Each macro instruction but OP_SYSREQ_N, that is, OP_PUSH2 to OP_PUSH5 in their four forms,
-- OP_LOAD_BOTH, OP_LOAD_S_BOTH, OP_CONST and OP_CONST_S, does in every state what its sequence of
-- plain instructions does; those that store a constant keep `pri` besides.
pub exec-expansion :
    (p : Program) (i : Macro) (s : State) → Macro.exec p i s ≡ keep i s (sequence p (expansion i) s)
unfolding Macro.exec Load.exec Store.exec Stack.exec
exec-expansion p (push2 a b) s = refl
exec-expansion p (push3 a b c) s = refl
exec-expansion p (push4 a b c d) s = refl
exec-expansion p (push5 a b c d e) s = refl
exec-expansion p (push2_s a b) s = refl
exec-expansion p (push3_s a b c) s = refl
exec-expansion p (push4_s a b c d) s = refl
exec-expansion p (push5_s a b c d e) s = refl
exec-expansion p (push2_c a b) s = refl
exec-expansion p (push3_c a b c) s = refl
exec-expansion p (push4_c a b c d) s = refl
exec-expansion p (push5_c a b c d e) s = refl
exec-expansion p (push2_adr a b) s = refl
exec-expansion p (push3_adr a b c) s = refl
exec-expansion p (push4_adr a b c d) s = refl
exec-expansion p (push5_adr a b c d e) s = refl
exec-expansion p (load_both a b) s = refl
exec-expansion p (load_s_both a b) s = refl
exec-expansion p (const_m offs v) s = refl
exec-expansion p (const_s offs v) s = refl
