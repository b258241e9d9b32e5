-- ===== src/Codegen/Sends.antt =====
-- What the code generator sends, in bytes of code: the size that the first pass of the assembler counts.
use mathlib.Core.Option.{some-injective}
use pawn_x.Prelude.{
  ℕ, ◌+◌, ◌≡◌, refl, ap, ◌∙◌, inl, inr, if◌then◌else◌, List, [], ◌∷◌, ◌++◌, Option, none, some,
  Bool-cases, Option-cases, arith,
}
use pawn_x.Assembler.Emit.{returned_size}
use pawn_x.Assembler.Passes.{
  Line, blank_line, label_line, instruction, is_cseg, first_pass, read_lines,
}
use pawn_x.Codegen.Lines.{lines_of, is_whole}
use pawn_x.Codegen.Writes.{Reads, Writes, Writes-none, Writes-trans, Writes-text}

-- The first pass steps over the lines by a number of bytes, and sets no label.
unfoldable pub Steps : List Line → ℕ → Type 0
Steps ls n = (c : ℕ) (lbltab : List ℕ) → first_pass ls c lbltab ≡ (c + n, lbltab)

pub first_pass-append :
    (a b : List Line) (c : ℕ) (lbltab : List ℕ)
    → first_pass (a ++ b) c lbltab
      ≡ first_pass b (first_pass a c lbltab).0 (first_pass a c lbltab).1
unfolding first_pass
first_pass-append [] b c t = refl
first_pass-append (blank_line ∷ a) b c t = first_pass-append a b c t
first_pass-append (label_line i ∷ a) b c t = first_pass-append a b c _
first_pass-append (instruction op ps ∷ a) b c t = first_pass-append a b _ t

-- Between two times whole lines were sent, which step by a number of bytes.
unfoldable pub Sends : List (List ℕ) → List (List ℕ) → ℕ → Type 0
Sends sent sent' n = (ls : List Line) × (Writes sent sent' ls × Steps ls n)

pub Sends-none : (sent : List (List ℕ)) → Sends sent sent 0
unfolding Sends Steps first_pass
Sends-none sent = ([], (Writes-none sent, λ c t. ap (λ n. (n, t)) (omega arith)))

pub Sends-trans : (a b c : List (List ℕ)) (m n : ℕ) → Sends a b m → Sends b c n → Sends a c (m + n)
unfolding Sends Steps
Sends-trans a b c m n (ls, (w, e)) (ms, (v, f)) = (
  ls ++ ms,
  (
    Writes-trans a b c ls ms w v,
    λ i t.
        first_pass-append ls ms i t
        ∙ ap (λ (r : ℕ × List ℕ). first_pass ms r.0 r.1) (e i t)
        ∙ f (i + m) t
        ∙ ap (λ k. (k, t)) (omega arith),
  ),
)

-- The size of lines, if they set no label.
unfoldable pub lines_size : List Line → Option ℕ
lines_size [] = some 0
lines_size (blank_line ∷ ls) = lines_size ls
lines_size (label_line i ∷ ls) = none
lines_size (instruction op ps ∷ ls) = elim (lines_size ls) [
  | none ↦ none
  | some n ↦ some ((if is_cseg (op.segment) then returned_size (op.func) ps else 0) + n)
]

lines_size-Steps :
    (ls : List Line) (n c : ℕ) (lbltab : List ℕ)
    → lines_size ls ≡ some n
    → first_pass ls c lbltab ≡ (c + n, lbltab)
unfolding lines_size first_pass
lines_size-Steps [] n c t e = ap (λ k. (k, t)) (omega (arith, some-injective 0 n e))
lines_size-Steps (blank_line ∷ ls) n c t e = lines_size-Steps ls n c t e
lines_size-Steps (label_line i ∷ ls) n c t e = absurd (cc e)
lines_size-Steps (instruction op ps ∷ ls) n c t e =
    let size = (if is_cseg (op.segment) then returned_size (op.func) ps else 0) in
    elim (Option-cases (lines_size ls)) [
      | inl none_found ↦ absurd (cc (rw (lines_size, none_found) at e))
      | inr (m, f) ↦
          let sum : size + m ≡ n = some-injective (size + m) n (rw (lines_size, f) at e) in
          lines_size-Steps ls m (c + size) t f ∙ ap (λ k. (k, t)) (omega (arith, sum))
    ]

abbrev size_of : Option (List Line) → Option ℕ
size_of none = none
size_of (some ls) = lines_size ls

-- The size of a text of whole lines without a label.
unfoldable pub sent_size : List ℕ → Option ℕ
sent_size t = if is_whole t then size_of (read_lines (lines_of t)) else none

pub Sends-text :
    (sent : List (List ℕ)) (t : List ℕ) (n : ℕ) → sent_size t ≡ some n → Sends sent (t ∷ sent) n
unfolding sent_size Sends Steps Reads
Sends-text sent t n e = elim (Bool-cases (is_whole t)) [
  | inr f ↦ absurd (cc (rw (sent_size, f) at e))
  | inl y ↦ elim (Option-cases (read_lines (lines_of t))) [
    | inl f ↦ absurd (cc (rw (sent_size, y, f) at e))
    | inr (ls, r) ↦
        let size = rw (sent_size, y, r) at e in
        (ls, (Writes-text sent t ls (y, r), λ c lbltab. lines_size-Steps ls n c lbltab size))
  ]
]
