-- ===== src/Codegen/Writes.antt =====
-- The lines that the code generator (sc4.c) sends between two times, as the assembler reads them.
use mathlib.Core.List.{append_assoc, append-nil}
use pawn_x.Prelude.{ℕ, ◌≡◌, refl, ap, sym, ◌∙◌, true, List, [], ◌∷◌, ◌++◌, some}
use pawn_x.Assembler.Passes.{Line, read_line, read_lines}
use pawn_x.Codegen.Lines.{
  text_of, lines_of, is_whole, lines_of-append, is_whole-append, is_whole_end, one_line,
  lines_of_line, read_lines-append,
}

-- The assembler reads the text as lines, and nothing is left behind the last newline.
unfoldable pub Reads : List ℕ → List Line → Type 0
Reads t ls = (is_whole t ≡ true) × (read_lines (lines_of t) ≡ some ls)

pub Reads-append :
    (t u : List ℕ) (ls ms : List Line) → Reads t ls → Reads u ms → Reads (t ++ u) (ls ++ ms)
unfolding Reads
Reads-append t u ls ms (w, r) (w', r') = (
  is_whole-append t u w w',
  ap read_lines (lines_of-append t u w) ∙ read_lines-append (lines_of t) (lines_of u) ls ms r r',
)

-- Between two times lines were sent.
unfoldable pub Writes : List (List ℕ) → List (List ℕ) → List Line → Type 0
Writes sent sent' ls = (t : List ℕ) × ((text_of sent' ≡ text_of sent ++ t) × Reads t ls)

pub Writes-none : (sent : List (List ℕ)) → Writes sent sent []
unfolding Writes Reads is_whole lines_of read_lines
Writes-none sent = ([], (sym (append-nil (text_of sent)), (refl, refl)))

pub Writes-trans :
    (a b c : List (List ℕ)) (ls ms : List Line)
    → Writes a b ls
    → Writes b c ms
    → Writes a c (ls ++ ms)
unfolding Writes
Writes-trans a b c ls ms (t, (e, r)) (u, (f, r')) =
    (t ++ u, (f ∙ ap (λ x. x ++ u) e ∙ append_assoc (text_of a) t u, Reads-append t u ls ms r r'))

pub text_of-append : (a b : List (List ℕ)) → text_of (a ++ b) ≡ text_of b ++ text_of a
unfolding text_of
text_of-append [] b = sym (append-nil (text_of b))
text_of-append (s ∷ a) b =
    ap (λ x. x ++ s) (text_of-append a b) ∙ append_assoc (text_of b) (text_of a) s

-- One line, in parts.
pub Writes-line :
    (sent parts : List (List ℕ)) (l : Line)
    → one_line (text_of parts) ≡ true
    → read_line (text_of parts ++ 10 ∷ []) ≡ some l
    → Writes sent ((10 ∷ []) ∷ (parts ++ sent)) (l ∷ [])
unfolding Writes Reads text_of read_lines
Writes-line sent parts l o r =
    let t = text_of parts in
    (
      t ++ 10 ∷ [],
      (
        ap (λ x. x ++ 10 ∷ []) (text_of-append parts sent)
            ∙ append_assoc (text_of sent) t (10 ∷ []),
        (is_whole_end t, ap read_lines (lines_of_line t o) ∙ rw (read_lines, r) refl),
      ),
    )

-- One literal, with its newline.
pub Writes-text :
    (sent : List (List ℕ)) (t : List ℕ) (ls : List Line) → Reads t ls → Writes sent (t ∷ sent) ls
unfolding Writes text_of
Writes-text sent t ls r = (t, (refl, r))
