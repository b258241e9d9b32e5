-- ===== src/Peephole/Size/Written.antt =====
-- The size of the text that a match is replaced by (`replacesequence`, `strreplace` of sc7.c).
use mathlib.Core.Path.{subst}
use mathlib.Core.List.{append_assoc}
use pawn_x.Prelude.{
  ℕ, ◌+◌, ◌-◌, ◌≤◌, ◌≡◌, inl, inr, refl, sym, ◌∙◌, arith, true, false, ◌==◌, leb, List, [], ◌∷◌,
  ◌++◌, drop, length, length-append, All, leb→le, drop-append, drop-drop, Bool-cases, and_intro,
}
use pawn_x.Peephole.{
  Item, symbol, negative, blank, line, char, Symbols, in_symbol, write_items, strreplace,
}
use pawn_x.Peephole.Shrink.{vars, IsBound}
use pawn_x.Peephole.Size.{
  Place, gap, in_word, in_gap, place, entered, template_size, template_end, all_in_symbol, is_word,
  all_written, is_closed, closes,
}
use pawn_x.Peephole.Size.Found.{
  Reads, Reads-same, Reads-skip, Reads-stay, Reads-to, Reads-then, Reads-quiet, in_symbol-place,
  in_word_idem, entered-same,
}
use pawn_x.Peephole.Size.Items.{AreWords}

word-Reads :
    (p : Place) (w rest : List ℕ)
    → in_word p ≡ p
    → all_in_symbol w ≡ true
    → Reads p (w ++ rest) 0 p rest
unfolding all_in_symbol
word-Reads p [] rest g h = Reads-same p rest
word-Reads p (c ∷ w) rest g h =
    let here : in_symbol c ≡ true = ground arith in
    let behind : all_in_symbol w ≡ true = ground arith in
    Reads-skip (Reads-quiet p p c (w ++ rest) (in_symbol-place p c here ∙ g) (entered-same p))
      (word-Reads p w rest g behind)

first_word-Reads :
    (p : Place) (w rest : List ℕ)
    → 1 ≤ length w
    → all_in_symbol w ≡ true
    → Reads p (w ++ rest) (entered p (in_word p)) (in_word p) rest
unfolding all_in_symbol
first_word-Reads p [] rest l h = absurd (omega (arith, l))
first_word-Reads p (c ∷ w) rest l h =
    let here : in_symbol c ≡ true = ground arith in
    let behind : all_in_symbol w ≡ true = ground arith in
    Reads-stay (Reads-to p (in_word p) c (w ++ rest) (in_symbol-place p c here))
      (word-Reads (in_word p) w rest (in_word_idem p) behind)

is_word_lem : (w : List ℕ) → is_word w ≡ true → (1 ≤ length w) × (all_in_symbol w ≡ true)
unfolding all_in_symbol
is_word_lem [] h = absurd (cc h)
is_word_lem (c ∷ w) h = (omega arith, h)

newline-Reads : (p : Place) (t : List ℕ) → Reads p (10 ∷ 0 ∷ t) (entered p gap) gap t
newline-Reads p t = Reads-stay (Reads-to p gap 10 (0 ∷ t) refl) (Reads-to gap gap 0 t refl)

module _ (s : Symbols) (w : AreWords s) where
  -- The text of a template has the size of the template.
  pub write_items-Reads :
      (p : Place) (is : List Item) (rest : List ℕ)
      → all_written is ≡ true
      → All (IsBound s) (vars is)
      → Reads p (write_items is s ++ rest) (template_size p is) (template_end p is) rest
  unfolding write_items template_size template_end all_written vars
  write_items-Reads p [] rest d b = Reads-same p rest
  write_items-Reads p (symbol k ∷ is) rest d (h, b) =
      let others = write_items-Reads (in_word p) is rest d b in
      subst (λ t. Reads p t (template_size p (symbol k ∷ is)) (template_end p (symbol k ∷ is)) rest)
        (sym (append_assoc (s k) (write_items is s) rest))
        (Reads-then (first_word-Reads p (s k) (write_items is s ++ rest) h (w k)) others)
  write_items-Reads p (negative ds ∷ is) rest d b =
      let (l, h) = is_word_lem ds (ground arith) in
      let others = write_items-Reads (in_word p) is rest (ground arith) b in
      subst
        (λ t.
          Reads p t (template_size p (negative ds ∷ is)) (template_end p (negative ds ∷ is)) rest)
        (sym (append_assoc ds (write_items is s) rest))
        (Reads-then (first_word-Reads p ds (write_items is s ++ rest) l h) others)
  write_items-Reads p (blank ∷ is) rest d b =
      Reads-then (Reads-to p (in_gap p) 32 (write_items is s ++ rest) refl)
        (write_items-Reads (in_gap p) is rest d b)
  write_items-Reads p (line true ∷ is) rest d b =
      let text = write_items is s ++ rest in
      Reads-then (Reads-stay (newline-Reads p (9 ∷ text)) (Reads-to gap gap 9 text refl))
        (write_items-Reads gap is rest d b)
  write_items-Reads p (line false ∷ is) rest d b =
      Reads-then (newline-Reads p (write_items is s ++ rest)) (write_items-Reads gap is rest d b)
  write_items-Reads p (char c ∷ is) rest d b =
      Reads-then (Reads-to p (place p c) c (write_items is s ++ rest) refl)
        (write_items-Reads (place p c) is rest (ground arith) b)

-- A byte keeps a text closed that is closed behind it.
pub byte-closed :
    (p q : Place) (c : ℕ) (t : List ℕ)
    → place p c ≡ q
    → (c == 0) ≡ false
    → is_closed q t ≡ true
    → is_closed p (c ∷ t) ≡ true
unfolding is_closed
byte-closed p q c t e z h =
    let here : closes p c ≡ true = ground arith in
    and_intro (closes p c) (is_closed (place p c) t) here
      (subst (λ r. is_closed r t ≡ true) (sym e) h)

word-closed :
    (p : Place) (w rest : List ℕ)
    → in_word p ≡ p
    → all_in_symbol w ≡ true
    → is_closed p rest ≡ true
    → is_closed p (w ++ rest) ≡ true
unfolding all_in_symbol
word-closed p [] rest g h e = e
word-closed p (c ∷ w) rest g h e =
    let here : in_symbol c ≡ true = ground arith in
    let behind : all_in_symbol w ≡ true = ground arith in
    byte-closed p p c (w ++ rest) (in_symbol-place p c here ∙ g) (ground arith)
      (word-closed p w rest g behind e)

first_word-closed :
    (p : Place) (w rest : List ℕ)
    → 1 ≤ length w
    → all_in_symbol w ≡ true
    → is_closed (in_word p) rest ≡ true
    → is_closed p (w ++ rest) ≡ true
unfolding all_in_symbol
first_word-closed p [] rest l h e = absurd (omega (arith, l))
first_word-closed p (c ∷ w) rest l h e =
    let here : in_symbol c ≡ true = ground arith in
    let behind : all_in_symbol w ≡ true = ground arith in
    byte-closed p (in_word p) c (w ++ rest) (in_symbol-place p c here) (ground arith)
      (word-closed (in_word p) w rest (in_word_idem p) behind e)

newline-closed : (p : Place) (t : List ℕ) → is_closed gap t ≡ true → is_closed p (10 ∷ 0 ∷ t) ≡ true
unfolding is_closed
newline-closed p t h = h

module _ (s : Symbols) (w : AreWords s) where
  pub write_items-closed :
      (p : Place) (is : List Item) (rest : List ℕ)
      → all_written is ≡ true
      → All (IsBound s) (vars is)
      → is_closed (template_end p is) rest ≡ true
      → is_closed p (write_items is s ++ rest) ≡ true
  unfolding write_items template_end all_written vars
  write_items-closed p [] rest d b e = e
  write_items-closed p (symbol k ∷ is) rest d (h, b) e =
      let others = write_items-closed (in_word p) is rest d b e in
      subst (λ t. is_closed p t ≡ true) (sym (append_assoc (s k) (write_items is s) rest))
        (first_word-closed p (s k) (write_items is s ++ rest) h (w k) others)
  write_items-closed p (negative ds ∷ is) rest d b e =
      let (l, h) = is_word_lem ds (ground arith) in
      let others = write_items-closed (in_word p) is rest (ground arith) b e in
      subst (λ t. is_closed p t ≡ true) (sym (append_assoc ds (write_items is s) rest))
        (first_word-closed p ds (write_items is s ++ rest) l h others)
  write_items-closed p (blank ∷ is) rest d b e =
      byte-closed p (in_gap p) 32 (write_items is s ++ rest) refl refl
        (write_items-closed (in_gap p) is rest d b e)
  write_items-closed p (line true ∷ is) rest d b e =
      let text = write_items is s ++ rest in
      newline-closed p (9 ∷ text)
        (byte-closed gap gap 9 text refl refl (write_items-closed gap is rest d b e))
  write_items-closed p (line false ∷ is) rest d b e =
      newline-closed p (write_items is s ++ rest) (write_items-closed gap is rest d b e)
  write_items-closed p (char c ∷ is) rest d b e =
      byte-closed p (place p c) c (write_items is s ++ rest) refl (ground arith)
        (write_items-closed (place p c) is rest (ground arith) b e)

drop_lem : (u v : List ℕ) → drop (length (u ++ v) - length v) (u ++ v) ≡ v
drop_lem u v =
    let n : length (u ++ v) - length v ≡ length u = omega (arith, length-append u v) in
    rw n (drop-append u v)

-- Moving the text and then writing over it puts the new bytes for the old ones.
pub strreplace_lem :
    (u rest replace : List ℕ)
    → strreplace (u ++ rest) replace (length (u ++ rest) - length rest) ≡ replace ++ rest
unfolding strreplace
strreplace_lem u rest replace =
    elim (Bool-cases (leb (length replace) (length (u ++ rest) - length rest))) [
      | inl y ↦
          let n = length (u ++ rest) - length rest in
          let all : n - length replace + length replace ≡ n =
            omega (arith, leb→le (length replace) n y) in
          rw (y, drop-drop (length replace) (n - length replace) (u ++ rest), all, drop_lem u rest)
      | inr f ↦ rw (f, drop_lem u rest)
    ]
