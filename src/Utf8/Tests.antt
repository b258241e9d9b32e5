-- ===== src/Utf8/Tests.antt =====
-- UTF-8 at concrete strings.
use pawn_x.Prelude.{ℕ, ◌≡◌, refl, true, false, arith, List, [], ◌∷◌, ◌++◌, none, some, All}
use pawn_x.Utf8.{utf8_get, utf8_put, utf8_check, check_from, collect, verify}
use pawn_x.Utf8.Roundtrip.{ReadsBack, utf8_get-utf8_put}
use pawn_x.Utf8.Check.{encode, IsCharacter, utf8_check-encode}

-- The euro sign; a surrogate and an overlong form are refused.
reads :
    (utf8_get (226 ∷ 130 ∷ 172 ∷ 0 ∷ []) ≡ some (8364, 0 ∷ []))
    × (utf8_get (237 ∷ 160 ∷ 128 ∷ 0 ∷ []) ≡ none)
    × (utf8_get (192 ∷ 129 ∷ 0 ∷ []) ≡ none)
    × (utf8_put 2 8364 ≡ none)
    × (utf8_check (65 ∷ 226 ∷ 130 ∷ 172 ∷ 0 ∷ []) ≡ (true, 2))
    × (utf8_check (65 ∷ 226 ∷ 130 ∷ 0 ∷ []) ≡ (false, 2))
unfolding utf8_get utf8_put utf8_check check_from collect verify
reads = (refl, refl, refl, refl, refl, refl)

utf8_get-utf8_put_example : ReadsBack 128512
utf8_get-utf8_put_example = utf8_get-utf8_put 128512 (omega arith) refl

abbrev text : List ℕ
text = 65 ∷ 233 ∷ 8364 ∷ 128512 ∷ []

text-All : All IsCharacter text
text-All = (
  (omega arith, omega arith, refl),
  (
    (omega arith, omega arith, refl),
    ((omega arith, omega arith, refl), ((omega arith, omega arith, refl), tt)),
  ),
)

utf8_check-encode_example : utf8_check (encode text ++ (0 ∷ [])) ≡ (true, 4)
utf8_check-encode_example = utf8_check-encode text text-All
