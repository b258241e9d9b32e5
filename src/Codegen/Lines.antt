-- ===== src/Codegen/Lines.antt =====
-- The text that the code generator sends, in the lines that the assembler reads from the file.
use mathlib.Core.Option.{some-injective}
use pawn_x.Prelude.{
  ℕ, ◌≡◌, refl, ap, ◌∙◌, Bool, true, false, ◌&&◌, not, ◌==◌, if◌then◌else◌, inl, inr, List, [], ◌∷◌,
  ◌++◌, some, and_lem, Bool-cases, Option-cases,
}
use pawn_x.Assembler.Passes.{Line, read_line, read_lines}

-- The strings of `stgwrite` one behind the other; the last comes first.
unfoldable pub text_of : List (List ℕ) → List ℕ
text_of [] = []
text_of (s ∷ sent) = text_of sent ++ s

abbrev pub put_first : ℕ → List (List ℕ) → List (List ℕ)
put_first c [] = (c ∷ []) ∷ []
put_first c (l ∷ ls) = (c ∷ l) ∷ ls

unfoldable pub lines_of : List ℕ → List (List ℕ)
lines_of [] = []
lines_of (c ∷ s) = let rest = lines_of s in if c == 10 then (10 ∷ []) ∷ rest else put_first c rest

-- The text is empty or ends with a newline.
unfoldable pub is_whole : List ℕ → Bool
is_whole [] = true
is_whole (c ∷ []) = c == 10
is_whole (c ∷ d ∷ s) = is_whole (d ∷ s)

-- Neither a newline nor a comment is in the text.
unfoldable pub is_clean : List ℕ → Bool
is_clean [] = true
is_clean (c ∷ s) = (not (c == 10) && not (c == b';')) && is_clean s

Begins : List (List ℕ) → Type 0
Begins x = (l : List ℕ) × ((ls : List (List ℕ)) × (x ≡ l ∷ ls))

put_first-Begins : (c : ℕ) (x : List (List ℕ)) → Begins (put_first c x)
unfolding Begins
put_first-Begins c [] = (c ∷ [], ([], refl))
put_first-Begins c (l ∷ ls) = (c ∷ l, (ls, refl))

lines_of-Begins : (c : ℕ) (s : List ℕ) → Begins (lines_of (c ∷ s))
unfolding Begins lines_of
lines_of-Begins c s = elim (Bool-cases (c == 10)) [
  | inl y ↦ (10 ∷ [], (lines_of s, rw y refl))
  | inr f ↦ rw f (put_first-Begins c (lines_of s))
]

put_first-append :
    (c : ℕ) (x y : List (List ℕ)) → Begins x → put_first c (x ++ y) ≡ put_first c x ++ y
unfolding Begins
put_first-append c x y (l, (ls, e)) = rw e refl

pub lines_of-append :
    (t u : List ℕ) → is_whole t ≡ true → lines_of (t ++ u) ≡ lines_of t ++ lines_of u
unfolding lines_of is_whole
lines_of-append [] u w = refl
lines_of-append (c ∷ []) u w = rw w refl
lines_of-append (c ∷ d ∷ s) u w =
    let rest = lines_of-append (d ∷ s) u w in
    elim (Bool-cases (c == 10)) [
      | inl y ↦ rw y (ap (λ x. (10 ∷ []) ∷ x) rest)
      | inr f ↦ rw f (
          ap (put_first c) rest
          ∙ put_first-append c (lines_of (d ∷ s)) (lines_of u) (lines_of-Begins d s))
    ]

pub is_whole-append :
    (t u : List ℕ) → is_whole t ≡ true → is_whole u ≡ true → is_whole (t ++ u) ≡ true
unfolding is_whole
is_whole-append [] u w v = v
is_whole-append (c ∷ []) [] w v = w
is_whole-append (c ∷ []) (d ∷ u) w v = v
is_whole-append (c ∷ d ∷ s) u w v = is_whole-append (d ∷ s) u w v

pub is_whole_end : (t : List ℕ) → is_whole (t ++ 10 ∷ []) ≡ true
unfolding is_whole
is_whole_end [] = refl
is_whole_end (c ∷ []) = refl
is_whole_end (c ∷ d ∷ s) = is_whole_end (d ∷ s)

-- No newline is in the text.
unfoldable pub one_line : List ℕ → Bool
one_line [] = true
one_line (c ∷ s) = not (c == 10) && one_line s

pub not_true : (b : Bool) → not b ≡ true → b ≡ false
not_true true e = absurd (cc e)
not_true false e = refl

pub lines_of_line : (t : List ℕ) → one_line t ≡ true → lines_of (t ++ 10 ∷ []) ≡ (t ++ 10 ∷ []) ∷ []
unfolding lines_of one_line
lines_of_line [] e = refl
lines_of_line (c ∷ t) e =
    let (n, e') = and_lem (not (c == 10)) (one_line t) e in
    let f = not_true (c == 10) n in rw (f, lines_of_line t e') refl

pub read_lines-append :
    (a b : List (List ℕ)) (ls ms : List Line)
    → read_lines a ≡ some ls
    → read_lines b ≡ some ms
    → read_lines (a ++ b) ≡ some (ls ++ ms)
unfolding read_lines
read_lines-append [] b ls ms e f = f ∙ ap (λ xs. some (xs ++ ms)) (some-injective [] ls e)
read_lines-append (l ∷ a) b ls ms e f = elim (Option-cases (read_line l)) [
  | inl n ↦ absurd (cc (rw (read_lines, n) at e))
  | inr (x, p) ↦ elim (Option-cases (read_lines a)) [
    | inl n ↦ absurd (cc (rw (read_lines, p, n) at e))
    | inr (xs, q) ↦
        let same = some-injective (x ∷ xs) ls (rw (read_lines, p, q) at e) in
        rw (read_lines, p, read_lines-append a b xs ms q f) (ap (λ ys. some (ys ++ ms)) same)
  ]
]
