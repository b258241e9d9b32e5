-- ===== src/Assembler/Roundtrip.antt =====
-- The numbers that the code generator writes (`itoh` of compiler/source/compiler/sc2.c), read by
-- `hex2long` (compiler/source/compiler/sc6.c).
use mathlib.Core.Path.{subst}
use native.Mathlib.Nat.{pow-suc, pow-zero}
use pawn_x.Prelude.{
  ℕ, zero, suc, ◌+◌, ◌*◌, ◌/◌, ◌%◌, ◌^◌, ◌<◌, ◌≡◌, refl, ap, sym, ◌∙◌, arith, Bool, true, false,
  inl, inr, ◌==◌, not, List, [], ◌∷◌, ◌++◌, length, All, Bool-cases,
}
use pawn_x.Prelude.Chars.{is_hex, hex_digit, hex_char, itoh_from, itoh}
use pawn_x.Cell.{modulus, add}
use pawn_x.Peephole.{skip_blanks, is_blank}
use pawn_x.Assembler.Number.{Names, hex_value, hex_signed, hex2long, param_sum, getparam}
use pawn_x.Assembler.Emit.{getparams}

hex_char_lem : (d : ℕ) → d < 16 → (is_hex (hex_char d) ≡ true) × (hex_digit (hex_char d) ≡ d)
hex_char_lem d h = (ground arith, ground arith)

hex_value-step :
    (r c : ℕ) (s : List ℕ)
    → is_hex c ≡ true
    → hex_value r (c ∷ s) ≡ hex_value (r * 16 % modulus + hex_digit c) s
unfolding hex_value
hex_value-step r c s e = rw e refl

hex_value-hex_char :
    (r d : ℕ) (s : List ℕ)
    → d < 16
    → hex_value r (hex_char d ∷ s) ≡ hex_value (r * 16 % modulus + d) s
hex_value-hex_char r d s h =
    let (hex, digit) = hex_char_lem d h in
    hex_value-step r (hex_char d) s hex ∙ ap (λ x. hex_value (r * 16 % modulus + x) s) digit

-- Reading what `itoh` has written in front of digits is reading the digits from its number on.
hex_value-itoh_from :
    (n v : ℕ) (digits : List ℕ)
    → v < 16 ^ n
    → v < modulus
    → hex_value 0 (itoh_from n v digits) ≡ hex_value v digits
unfolding itoh_from hex_value
hex_value-itoh_from zero v digits h m =
    let none_left : v ≡ 0 = omega (arith, h, pow-zero 16) in
    ap (λ r. hex_value r digits) (sym none_left)
hex_value-itoh_from (suc n) v digits h m =
    let digits' = hex_char (v % 16) ∷ digits in
    elim (Bool-cases (v / 16 == 0)) [
      | inl y ↦
          let alone : itoh_from (suc n) v digits ≡ digits' = rw y refl in
          let value : 0 * 16 % modulus + v % 16 ≡ v = ground arith in
          ap (hex_value 0) alone
          ∙ hex_value-hex_char 0 (v % 16) digits (omega arith)
          ∙ ap (λ r. hex_value r digits) value
      | inr f ↦
          let more : itoh_from (suc n) v digits ≡ itoh_from n (v / 16) digits' = rw f refl in
          let value : v / 16 * 16 % modulus + v % 16 ≡ v = omega (arith, m) in
          ap (hex_value 0) more
          ∙ hex_value-itoh_from n (v / 16) digits' (omega (arith, h, pow-suc 16 n))
              (omega (arith, m))
          ∙ hex_value-hex_char (v / 16) (v % 16) digits (omega arith)
          ∙ ap (λ r. hex_value r digits) value
    ]

-- A text that begins with a digit.
Begins : List ℕ → Type 0
Begins s = (c : ℕ) × ((t : List ℕ) × ((s ≡ c ∷ t) × (is_hex c ≡ true)))

itoh_from-Begins : (n v : ℕ) (digits : List ℕ) → Begins digits → Begins (itoh_from n v digits)
unfolding itoh_from Begins
itoh_from-Begins zero v digits b = b
itoh_from-Begins (suc n) v digits b =
    let digits' = hex_char (v % 16) ∷ digits in
    let b' : Begins digits' =
      (hex_char (v % 16), (digits, (refl, (hex_char_lem (v % 16) (omega arith)).0))) in
    elim (Bool-cases (v / 16 == 0)) [
      | inl y ↦ rw y b'
      | inr f ↦ rw f (itoh_from-Begins n (v / 16) digits' b')
    ]

itoh_from_first : (n v : ℕ) (digits : List ℕ) → Begins (itoh_from (suc n) v digits)
unfolding itoh_from Begins
itoh_from_first n v digits =
    let digits' = hex_char (v % 16) ∷ digits in
    let b' : Begins digits' =
      (hex_char (v % 16), (digits, (refl, (hex_char_lem (v % 16) (omega arith)).0))) in
    elim (Bool-cases (v / 16 == 0)) [
      | inl y ↦ rw y b'
      | inr f ↦ rw f (itoh_from-Begins n (v / 16) digits' b')
    ]

itoh_from-append :
    (n v : ℕ) (digits rest : List ℕ) → itoh_from n v (digits ++ rest) ≡ itoh_from n v digits ++ rest
unfolding itoh_from
itoh_from-append zero v digits rest = refl
itoh_from-append (suc n) v digits rest = elim (Bool-cases (v / 16 == 0)) [
  | inl y ↦ rw y refl
  | inr f ↦ rw f (itoh_from-append n (v / 16) (hex_char (v % 16) ∷ digits) rest)
]

-- The text goes on with what is no digit.
abbrev pub ends_digits : List ℕ → Bool
ends_digits [] = true
ends_digits (c ∷ s) = not (is_hex c)

hex_value_end : (r : ℕ) (s : List ℕ) → ends_digits s ≡ true → hex_value r s ≡ (r, s)
unfolding hex_value
hex_value_end r [] e = refl
hex_value_end r (c ∷ s) e = let no : is_hex c ≡ false = ground arith in rw no refl

hex_value-itoh :
    (v : ℕ) (rest : List ℕ)
    → v < modulus
    → ends_digits rest ≡ true
    → hex_value 0 (itoh v ++ rest) ≡ (v, rest)
unfolding itoh
hex_value-itoh v rest h e =
    ap (hex_value 0) (sym (itoh_from-append 8 v [] rest))
    ∙ hex_value-itoh_from 8 v rest (omega (arith, h)) h
    ∙ hex_value_end v rest e

itoh-Begins : (v : ℕ) (rest : List ℕ) → Begins (itoh v ++ rest)
unfolding itoh
itoh-Begins v rest = subst Begins (itoh_from-append 8 v [] rest) (itoh_from_first 7 v rest)

-- A number, as it is written, is read as it was.
pub hex2long-itoh :
    (v : ℕ) (rest : List ℕ)
    → v < modulus
    → ends_digits rest ≡ true
    → hex2long (itoh v ++ rest) ≡ (v, rest)
unfolding hex2long hex_signed skip_blanks Begins
hex2long-itoh v rest h e =
    let (c, (t, (s, hex))) = itoh-Begins v rest in
    let no_blank : is_blank c ≡ false = ground arith in
    let no_sign : (c == b'-') ≡ false = ground arith in
    let first : hex2long (c ∷ t) ≡ hex_value 0 (c ∷ t) = rw (no_blank, no_sign) refl in
    ap hex2long s ∙ first ∙ ap (hex_value 0) (sym s) ∙ hex_value-itoh v rest h e

-- Parameters as the instructions are written: numbers behind blanks, and the end of the line.
unfoldable pub param_text : List ℕ → List ℕ
param_text [] = 10 ∷ []
param_text (v ∷ vs) = 32 ∷ (itoh v ++ param_text vs)

param_text-ends : (vs : List ℕ) → ends_digits (param_text vs) ≡ true
unfolding param_text
param_text-ends [] = refl
param_text-ends (v ∷ vs) = refl

abbrev no_term : List ℕ → Bool
no_term [] = true
no_term (c ∷ s) = not (c == b'+')

-- A sum of one term.
param_sum-hex2long :
    (terms v : ℕ) (s rest : List ℕ)
    → hex2long s ≡ (v, rest)
    → no_term rest ≡ true
    → param_sum (suc terms) 0 s ≡ (add 0 v, rest)
unfolding param_sum
param_sum-hex2long terms v s [] e h =
    let value = ap (λ (r : ℕ × List ℕ). (add 0 r.0, [])) e in
    let behind : (hex2long s).1 ≡ [] = ap (λ (r : ℕ × List ℕ). r.1) e in
    rw (param_sum, behind) value
param_sum-hex2long terms v s (c ∷ rest) e h =
    let no : (c == b'+') ≡ false = ground arith in
    let value = ap (λ (r : ℕ × List ℕ). (add 0 r.0, c ∷ rest)) e in
    let behind : (hex2long s).1 ≡ c ∷ rest = ap (λ (r : ℕ × List ℕ). r.1) e in
    rw (param_sum, behind, no) value

param_text-no_term : (vs : List ℕ) → no_term (param_text vs) ≡ true
unfolding param_text
param_text-no_term [] = refl
param_text-no_term (v ∷ vs) = refl

getparam_lem :
    (names : Names) (v : ℕ) (vs : List ℕ)
    → v < modulus
    → getparam names (param_text (v ∷ vs)) ≡ (v, param_text vs)
unfolding getparam param_text hex2long skip_blanks
getparam_lem names v vs h =
    let read : hex2long (32 ∷ (itoh v ++ param_text vs)) ≡ (v, param_text vs) =
      hex2long-itoh v (param_text vs) h (param_text-ends vs) in
    let value : add 0 v ≡ v = omega (arith, h) in
    let text = 32 ∷ (itoh v ++ param_text vs) in
    param_sum-hex2long (length text) v text (param_text vs) read (param_text-no_term vs)
    ∙ ap (λ r. (r, param_text vs)) value

-- Numbers of 32 bits that `itoh` wrote, each behind a blank, are read back in turn by as many calls of
-- `getparam`.
pub getparams-param_text :
    (names : Names) (vs : List ℕ)
    → All (λ v. v < modulus) vs
    → getparams (length vs) names (param_text vs) ≡ vs
unfolding getparams
getparams-param_text names [] h = refl
getparams-param_text names (v ∷ vs) (h, hs) =
    rw (getparams, getparam_lem names v vs h) (ap (λ ws. v ∷ ws) (getparams-param_text names vs hs))
