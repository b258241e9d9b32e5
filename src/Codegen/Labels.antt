-- ===== src/Codegen/Labels.antt =====
-- The calls of the code generator (sc4.c) against the first pass of the assembler (sc6.c).
use mathlib.Core.Path.{subst}
use mathlib.Core.Option.{some-injective}
use pawn_x.Prelude.{
  ℕ, ◌≡◌, refl, ap, sym, ◌∙◌, inl, inr, List, [], ◌∷◌, ◌++◌, some, All, Option-cases,
}
use pawn_x.Assembler.Passes.{Line, first_pass, read_lines}
use pawn_x.Codegen.{Gen}
use pawn_x.Codegen.Call.{Call}
use pawn_x.Codegen.Perform.{perform, perform_all, place, label_table}
use pawn_x.Codegen.Lines.{text_of, lines_of}
use pawn_x.Codegen.Writes.{Reads, Writes, Writes-none, Writes-trans}
use pawn_x.Codegen.Sends.{first_pass-append}
use pawn_x.Codegen.Follow.{Follows, FollowsIf, perform-FollowsIf, IsValid}

-- The assembler follows calls.
unfoldable FollowAll : List Call → Gen → Gen → Type 0
FollowAll cs g g' =
    (ls : List Line) × (Writes g.sent g'.sent ls
      × ((t : List ℕ) → first_pass ls g.code_idx t ≡ (g'.code_idx, label_table cs g t)))

perform_all-FollowAll :
    (cs : List Call) (g g' : Gen) → All IsValid cs → perform_all cs g ≡ some g' → FollowAll cs g g'
unfolding FollowAll perform_all label_table first_pass FollowsIf Follows
perform_all-FollowAll [] g g' v e =
    let same = some-injective g g' e in
    subst (FollowAll [] g) same ([], (Writes-none g.sent, λ t. refl))
perform_all-FollowAll (c ∷ cs) g g' (v, vs) e = elim (Option-cases (perform c g)) [
  | inl n ↦ absurd (cc (rw (perform_all, n) at e))
  | inr (x, p) ↦
      let (ls, (w, first)) = subst (FollowsIf c g) p (perform-FollowsIf c g v) in
      let (ms, (w', then_)) = perform_all-FollowAll cs x g' vs (rw (perform_all, p) at e) in
      (
        ls ++ ms,
        (
          Writes-trans g.sent x.sent g'.sent ls ms w w',
          λ t.
              let table : label_table (c ∷ cs) g t ≡ label_table cs x (place c g t) =
                rw (label_table, p) refl in
              first_pass-append ls ms g.code_idx t
              ∙ ap (λ (r : ℕ × List ℕ). first_pass ms r.0 r.1) (first t)
              ∙ then_ (place c g t)
              ∙ ap (λ u. (g'.code_idx, u)) (sym table),
        ),
      )
]

-- Where calls of the code generator, from the start of the file on, end without a failed assertion,
-- and their labels are cells and their names in one line, the assembler reads what they sent as lines
-- without an invalid instruction, and its first pass from the same address ends with the size that the
-- code generator has in `code_idx`, and with each label at the `code_idx` that `setlabel` found.
pub perform_all-first_pass :
    (cs : List Call) (g g' : Gen) (lbltab : List ℕ)
    → g.sent ≡ []
    → All IsValid cs
    → perform_all cs g ≡ some g'
    → (ls : List Line) × ((read_lines (lines_of (text_of g'.sent)) ≡ some ls)
        × (first_pass ls g.code_idx lbltab ≡ (g'.code_idx, label_table cs g lbltab)))
unfolding FollowAll Writes Reads text_of
perform_all-first_pass cs g g' lbltab start v e =
    let (ls, ((t, (text, (whole, reads))), pass)) = perform_all-FollowAll cs g g' v e in
    let all : text_of g'.sent ≡ t = text ∙ ap (λ sent. text_of sent ++ t) start in
    (ls, (ap (λ u. read_lines (lines_of u)) all ∙ reads, pass lbltab))
