-- ===== src/Codegen/Clean.antt =====
-- Texts without a newline or a comment: the numbers that `itoh` writes (sc2.c), and `stripcomment` of
-- the assembler (sc6.c).
use pawn_x.Prelude.{
  ℕ, zero, suc, ◌/◌, ◌%◌, ◌<◌, ◌≡◌, refl, true, ◌&&◌, not, ◌==◌, inl, inr, List, [], ◌∷◌, ◌++◌,
  and_lem, and_intro, Bool-cases, arith,
}
use pawn_x.Prelude.Chars.{hex_char, itoh, itoh_from}
use pawn_x.Assembler.Passes.{stripcomment}
use pawn_x.Codegen.Lines.{is_clean, one_line, not_true}

pub one_line-append :
    (a b : List ℕ) → one_line a ≡ true → one_line b ≡ true → one_line (a ++ b) ≡ true
unfolding one_line
one_line-append [] b e f = f
one_line-append (c ∷ a) b e f =
    let (n, e') = and_lem (not (c == 10)) (one_line a) e in
    and_intro (not (c == 10)) (one_line (a ++ b)) n (one_line-append a b e' f)

pub is_clean-one_line : (t : List ℕ) → is_clean t ≡ true → one_line t ≡ true
unfolding is_clean one_line
is_clean-one_line [] e = refl
is_clean-one_line (c ∷ t) e =
    let (n, e') = and_lem (not (c == 10) && not (c == b';')) (is_clean t) e in
    and_intro (not (c == 10)) (one_line t) (and_lem (not (c == 10)) (not (c == b';')) n).0
      (is_clean-one_line t e')

-- A text without a comment is not changed in front of the rest.
pub stripcomment-append :
    (a b : List ℕ) → is_clean a ≡ true → stripcomment (a ++ b) ≡ a ++ stripcomment b
unfolding is_clean stripcomment
stripcomment-append [] b e = refl
stripcomment-append (c ∷ a) b e =
    let (n, e') = and_lem (not (c == 10) && not (c == b';')) (is_clean a) e in
    let f = not_true (c == b';') (and_lem (not (c == 10)) (not (c == b';')) n).1 in
    rw (f, stripcomment-append a b e') refl

pub hex_char-is_clean :
    (d : ℕ) → d < 16 → (not (hex_char d == 10) && not (hex_char d == b';')) ≡ true
hex_char-is_clean d h = ground arith

pub itoh_from-is_clean :
    (n v : ℕ) (digits : List ℕ) → is_clean digits ≡ true → is_clean (itoh_from n v digits) ≡ true
unfolding itoh_from is_clean
itoh_from-is_clean zero v digits e = e
itoh_from-is_clean (suc n) v digits e =
    let digit = hex_char-is_clean (v % 16) (omega arith) in
    let clean = not (hex_char (v % 16) == 10) && not (hex_char (v % 16) == b';') in
    let e' : is_clean (hex_char (v % 16) ∷ digits) ≡ true =
      and_intro clean (is_clean digits) digit e in
    elim (Bool-cases (v / 16 == 0)) [
      | inl y ↦ rw y e'
      | inr f ↦ rw f (itoh_from-is_clean n (v / 16) (hex_char (v % 16) ∷ digits) e')
    ]

pub itoh-is_clean : (v : ℕ) → is_clean (itoh v) ≡ true
unfolding itoh is_clean
itoh-is_clean v = itoh_from-is_clean 8 v [] refl
