-- ===== src/Utf8/Check.antt =====
-- `amx_UTF8Check` on encoded characters.
use mathlib.Core.List.{append_assoc}
use pawn_x.Prelude.{
  ℕ, zero, suc, ◌+◌, ◌^◌, ◌≤◌, ◌<◌, ◌≡◌, refl, inl, inr, ap, ◌∙◌, arith, true, false, ◌==◌, List,
  [], ◌∷◌, ◌++◌, Option, none, some, length, length-append, All, Bool-cases,
}
use pawn_x.Utf8.{is_reserved, utf8_get, utf8_put, check_from, utf8_check}
use pawn_x.Utf8.Roundtrip.{utf8_get-utf8_put}

-- The bytes of characters, as `amx_UTF8Put` stores them one behind the other.
pub encode : List ℕ → List ℕ
unfolding utf8_put
encode [] = []
encode (v ∷ vs) = elim (utf8_put 6 v) [ none ↦ encode vs | some bytes ↦ bytes ++ encode vs ]

-- A character that can stand in a zero-terminated string.
abbrev pub IsCharacter : ℕ → Type 0
IsCharacter v = (0 < v) × (v < 2 ^ 31) × (is_reserved v ≡ false)

check_step :
    (n v len : ℕ) (bs rest : List ℕ)
    → utf8_get bs ≡ some (v, rest)
    → 0 < v
    → check_from (suc n) bs len ≡ check_from n rest (len + 1)
unfolding check_from utf8_get
check_step n v len [] rest e h = absurd (cc e)
check_step n v len (c ∷ bs) rest e h = elim (Bool-cases (c == 0)) [
  | inl t ↦
      let z : 0 ≡ c = ground arith in
      let e' : ◌≡◌ {A = Option (ℕ × List ℕ)} (some (0, bs)) (some (v, rest)) =
        ap (λ w. utf8_get (w ∷ bs)) z ∙ e in
      let same : 0 ≡ v = cc e' in absurd (omega (arith, same, h))
  | inr f ↦ rw (f, e) refl
]

-- At least one byte.
bytes_some : (v : ℕ) (bytes : List ℕ) → utf8_get (bytes ++ []) ≡ some (v, []) → 1 ≤ length bytes
unfolding utf8_get
bytes_some v [] e = absurd (cc e)
bytes_some v (c ∷ bs) e = omega arith

encode_cons :
    (v : ℕ) (vs : List ℕ) (bytes : List ℕ)
    → utf8_put 6 v ≡ some bytes
    → encode (v ∷ vs) ≡ bytes ++ encode vs
unfolding encode
encode_cons v vs bytes e = rw (encode, e) refl

length-encode : (vs : List ℕ) → All IsCharacter vs → length vs ≤ length (encode vs)
unfolding encode
length-encode [] a = omega arith
length-encode (v ∷ vs) (h, a) =
    let (bytes, e, get) = utf8_get-utf8_put v h.1 h.2 in
    omega (
      arith,
      ap length (encode_cons v vs bytes e),
      length-append bytes (encode vs),
      bytes_some v bytes (get []),
      length-encode vs a,
    )

check_from-encode :
    (vs : List ℕ) (n len : ℕ)
    → length vs < n
    → All IsCharacter vs
    → check_from n (encode vs ++ (0 ∷ [])) len ≡ (true, len + length vs)
unfolding check_from encode
check_from-encode vs zero len h a = absurd (omega arith)
check_from-encode [] (suc n) len h a = ap (λ k. (true, k)) (omega arith)
check_from-encode (v ∷ vs) (suc n) len h (c, a) =
    let (bytes, e, get) = utf8_get-utf8_put v c.1 c.2 in
    let split : encode (v ∷ vs) ++ (0 ∷ []) ≡ bytes ++ (encode vs ++ (0 ∷ [])) =
      ap (λ w. w ++ (0 ∷ [])) (encode_cons v vs bytes e)
      ∙ append_assoc bytes (encode vs) (0 ∷ []) in
    let count : len + 1 + length vs ≡ len + suc (length vs) = omega arith in
    ap (λ w. check_from (suc n) w len) split
    ∙ (check_step n v len (bytes ++ (encode vs ++ (0 ∷ []))) _ (get (encode vs ++ (0 ∷ []))) c.0
        ∙ (check_from-encode vs n (len + 1) (omega arith) a ∙ ap (λ k. (true, k)) count))

-- `amx_UTF8Check` accepts what `amx_UTF8Put` stored for any characters but zero and the reserved
-- ones, with a zero behind, and counts the characters.
pub utf8_check-encode :
    (vs : List ℕ) → All IsCharacter vs → utf8_check (encode vs ++ (0 ∷ [])) ≡ (true, length vs)
unfolding utf8_check
utf8_check-encode vs a =
    check_from-encode vs (length (encode vs ++ (0 ∷ []))) 0
      (omega (arith, length-append (encode vs) (0 ∷ []), length-encode vs a)) a
    ∙ ap (λ k. (true, k)) (omega arith)
