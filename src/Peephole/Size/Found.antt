-- ===== src/Peephole/Size/Found.antt =====
-- The size of the text that a match takes (`matchsequence` of sc7.c).
use mathlib.Core.Path.{subst}
use mathlib.Core.List.{append_assoc}
use mathlib.Core.Option.{some-injective}
use pawn_x.Prelude.{
  ℕ, ◌+◌, ◌≡◌, inl, inr, refl, ap, sym, ◌∙◌, arith, Bool, true, false, ◌&&◌, ◌==◌, if◌then◌else◌,
  List, [], ◌∷◌, ◌++◌, some, Bool-cases, and_lem,
}
use pawn_x.Prelude.Chars.{to_lower}
use pawn_x.Peephole.{
  skip_blanks, skip_line, skip_comment, take_symbol, in_symbol, match_end, is_blank,
}
use pawn_x.Peephole.Size.{
  Place, gap, word, comment, in_word, in_gap, place, entered, text_size, is_closed, closes,
}

-- From one text and place to another behind it, past `n` bytes of code.
pub record Reads (p : Place) (t : List ℕ) (n : ℕ) (q : Place) (t' : List ℕ) : Type 0 where
  pub suffix : (u : List ℕ) × (t ≡ u ++ t')
  pub size : text_size p t ≡ n + text_size q t'
  pub closed : is_closed p t ≡ true → is_closed q t' ≡ true

pub Reads-same : (p : Place) (t : List ℕ) → Reads p t 0 p t
Reads-same p t = record { suffix = ([], refl); size = omega arith; closed = λ h. h }

pub Reads-then :
    {p q r : Place} {t t₁ t₂ : List ℕ} {n m : ℕ}
    → Reads p t n q t₁
    → Reads q t₁ m r t₂
    → Reads p t (n + m) r t₂
Reads-then {t₂} a b =
    let (u, e) = a.suffix in
    let (v, f) = b.suffix in
    record {
      suffix = (u ++ v, e ∙ ap (λ w. u ++ w) f ∙ sym (append_assoc u v t₂));
      size = omega (arith, a.size, b.size);
      closed = λ h. b.closed (a.closed h);
    }

Reads-byte :
    (p : Place) (c : ℕ) (t : List ℕ) → Reads p (c ∷ t) (entered p (place p c)) (place p c) t
unfolding text_size is_closed
Reads-byte p c t = record {
  suffix = (c ∷ [], refl);
  size = refl;
  closed = λ h. (and_lem (closes p c) (is_closed (place p c) t) h).1;
}

pub Reads-skip :
    {p q r : Place} {t t₁ t₂ : List ℕ} {n : ℕ}
    → Reads p t 0 q t₁
    → Reads q t₁ n r t₂
    → Reads p t n r t₂
Reads-skip {p} {r} {t} {t₂} {n} a b =
    let n' : 0 + n ≡ n = omega arith in subst (λ m. Reads p t m r t₂) n' (Reads-then a b)

pub Reads-stay :
    {p q r : Place} {t t₁ t₂ : List ℕ} {n : ℕ}
    → Reads p t n q t₁
    → Reads q t₁ 0 r t₂
    → Reads p t n r t₂
Reads-stay {p} {r} {t} {t₂} {n} a b =
    let n' : n + 0 ≡ n = omega arith in subst (λ m. Reads p t m r t₂) n' (Reads-then a b)

-- A byte after which the place is `q`.
pub Reads-to :
    (p q : Place) (c : ℕ) (t : List ℕ) → place p c ≡ q → Reads p (c ∷ t) (entered p q) q t
Reads-to p q c t e = subst (λ r. Reads p (c ∷ t) (entered p r) r t) e (Reads-byte p c t)

pub entered-gap : (p : Place) → entered p gap ≡ 0
entered-gap gap = refl
entered-gap word = refl
entered-gap comment = refl

entered-comment : (p : Place) → entered p comment ≡ 0
entered-comment gap = refl
entered-comment word = refl
entered-comment comment = refl

pub entered-in_gap : (p : Place) → entered p (in_gap p) ≡ 0
entered-in_gap gap = refl
entered-in_gap word = refl
entered-in_gap comment = refl

-- A byte that begins no word.
pub Reads-quiet :
    (p q : Place) (c : ℕ) (t : List ℕ) → place p c ≡ q → entered p q ≡ 0 → Reads p (c ∷ t) 0 q t
Reads-quiet p q c t e z = subst (λ n. Reads p (c ∷ t) n q t) z (Reads-to p q c t e)

-- Blanks count nothing.
pub Reads-blank :
    (p : Place) (c : ℕ) (t : List ℕ) → is_blank c ≡ true → Reads p (c ∷ t) 0 (in_gap p) t
Reads-blank p c t h = Reads-quiet p (in_gap p) c t (ground arith) (entered-in_gap p)

pub skip_blanks-Reads : (p : Place) (t : List ℕ) → in_gap p ≡ p → Reads p t 0 p (skip_blanks t)
unfolding skip_blanks
skip_blanks-Reads p [] g = Reads-same p []
skip_blanks-Reads p (c ∷ t) g = elim (Bool-cases (is_blank c)) [
  | inl y ↦ rw y (
      Reads-skip (subst (λ q. Reads p (c ∷ t) 0 q t) g (Reads-blank p c t y))
        (skip_blanks-Reads p t g))
  | inr f ↦ rw f (Reads-same p (c ∷ t))
]

skip_line-Reads : (t : List ℕ) → Reads comment t 0 comment (skip_line t)
unfolding skip_line
skip_line-Reads [] = Reads-same comment []
skip_line-Reads (c ∷ t) = elim (Bool-cases (c == 10)) [
  | inl y ↦ rw y (Reads-same comment (c ∷ t))
  | inr f ↦
      let e : place comment c ≡ comment = ground arith in
      rw f (Reads-skip (Reads-to comment comment c t e) (skip_line-Reads t))
]

pub in_gap_idem : (p : Place) → in_gap (in_gap p) ≡ in_gap p
in_gap_idem gap = refl
in_gap_idem word = refl
in_gap_idem comment = refl

Reads-more : (more : Bool) (t : List ℕ) → Reads gap t 0 gap (if more then skip_blanks t else t)
Reads-more true t = skip_blanks-Reads gap t refl
Reads-more false t = Reads-same gap t

-- The end of a line is read from each place alike.
match_end-Reads :
    (more : Bool) (p : Place) (t t' : List ℕ) → match_end more t ≡ some t' → Reads p t 0 gap t'
unfolding match_end
match_end-Reads more p [] t' e = absurd (cc e)
match_end-Reads more p (c ∷ []) t' e = absurd (cc e)
match_end-Reads more p (c ∷ z ∷ t) t' e = elim (Bool-cases ((c == 10) && (z == 0))) [
  | inl y ↦
      let newline : place p c ≡ gap = ground arith in
      let zero_byte : place gap z ≡ gap = ground arith in
      let e' = some-injective (if more then skip_blanks t else t) t' (rw (match_end, y) at e) in
      let ends =
        Reads-skip (Reads-quiet p gap c (z ∷ t) newline (entered-gap p))
          (Reads-to gap gap z t zero_byte) in
      subst (Reads p (c ∷ z ∷ t) 0 gap) e' (Reads-skip ends (Reads-more more t))
  | inr f ↦ absurd (cc (rw (match_end, f) at e))
]

pub skip_comment-Reads :
    (more : Bool) (p : Place) (t t' : List ℕ)
    → match_end more (skip_comment t) ≡ some t'
    → Reads p t 0 gap t'
unfolding skip_comment
skip_comment-Reads more p [] t' e = match_end-Reads more p [] t' e
skip_comment-Reads more p (c ∷ t) t' e = elim (Bool-cases (c == b';')) [
  | inl y ↦
      let e' : place p c ≡ comment = ground arith in
      Reads-skip (Reads-quiet p comment c t e' (entered-comment p)) (
        Reads-skip (skip_line-Reads t)
          (match_end-Reads more comment (skip_line t) t' (rw (skip_comment, y) at e)))
  | inr f ↦ match_end-Reads more p (c ∷ t) t' (rw (skip_comment, f) at e)
]

pub in_word_idem : (p : Place) → in_word (in_word p) ≡ in_word p
in_word_idem gap = refl
in_word_idem word = refl
in_word_idem comment = refl

pub entered-same : (p : Place) → entered p p ≡ 0
entered-same gap = refl
entered-same word = refl
entered-same comment = refl

pub in_symbol-place : (p : Place) (c : ℕ) → in_symbol c ≡ true → place p c ≡ in_word p
in_symbol-place p c h = ground arith

take_symbol-Reads : (p : Place) (t : List ℕ) → in_word p ≡ p → Reads p t 0 p (take_symbol t).1
unfolding take_symbol
take_symbol-Reads p [] g = Reads-same p []
take_symbol-Reads p (c ∷ t) g = elim (Bool-cases (in_symbol c)) [
  | inl y ↦ rw y (
      Reads-skip (Reads-quiet p p c t (in_symbol-place p c y ∙ g) (entered-same p))
        (take_symbol-Reads p t g))
  | inr f ↦ rw f (Reads-same p (c ∷ t))
]

-- A symbol is one word.
pub symbol-Reads :
    (p : Place) (c : ℕ) (t : List ℕ)
    → in_symbol c ≡ true
    → Reads p (c ∷ t) (entered p (in_word p)) (in_word p) (take_symbol (c ∷ t)).1
unfolding take_symbol
symbol-Reads p c t h = rw h (
    Reads-stay (Reads-to p (in_word p) c t (in_symbol-place p c h))
      (take_symbol-Reads (in_word p) t (in_word_idem p)))

-- The case of a byte does not matter.
pub same_place : (p : Place) (c d : ℕ) → (to_lower c == to_lower d) ≡ true → place p c ≡ place p d
same_place p c d h = ground arith
