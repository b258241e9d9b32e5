-- ===== src/Compact/ReadCell.antt =====
-- The reading of one cell, off the bytes that `encode_cell` wrote for it.
use mathlib.Core.List.{reverse}
use pawn_x.Prelude.{
  ℕ, zero, suc, ◌+◌, ◌*◌, ◌%◌, ◌^◌, ◌≤◌, ◌<◌, ◌≡◌, inl, inr, refl, ap, ◌∙◌, arith, true, false,
  List, [], ◌∷◌, ◌++◌, some, drop,
}
use pawn_x.Cell.{modulus}
use pawn_x.Compact.{group, first_byte, encode_cell, is_proper, sign_expand, continues, read_cell}
use pawn_x.Compact.FirstByte.{Zeros, Ones, first_byte_cases}

read_more :
    (b : ℕ) (bs : List ℕ) (shift c : ℕ)
    → continues bs ≡ true
    → is_proper shift b ≡ true
    → read_cell (b ∷ bs) shift c ≡ read_cell bs (shift + 7) (c + b % 128 * 2 ^ shift % modulus)
unfolding read_cell
read_more b bs shift c h p = rw (read_cell, p, h) refl

read_last :
    (b : ℕ) (bs : List ℕ) (shift c : ℕ)
    → continues bs ≡ false
    → is_proper shift b ≡ true
    → read_cell (b ∷ bs) shift c
      ≡ some (sign_expand b (shift + 7) (c + b % 128 * 2 ^ shift % modulus), bs)
unfolding read_cell
read_last b bs shift c h p = rw (read_cell, p, h) refl

marked : (g : ℕ) (bs : List ℕ) → continues ((g + 128) ∷ bs) ≡ true
unfolding continues
marked g bs = ground arith

-- All five bytes, of which the encoding keeps the last.
abbrev bytes : ℕ → List ℕ
bytes c =
    (group c 0 + 128) ∷ (group c 1 + 128) ∷ (group c 2 + 128) ∷ (group c 3 + 128) ∷ group c 4 ∷ []

abbrev Reads : ℕ → ℕ → List ℕ → Type 0
Reads c j rest = read_cell (reverse (drop j (bytes c)) ++ rest) 0 0 ≡ some (c, rest)

more :
    (b g : ℕ) (bs : List ℕ) (shift c : ℕ)
    → is_proper shift b ≡ true
    → read_cell (b ∷ (g + 128) ∷ bs) shift c
      ≡ read_cell ((g + 128) ∷ bs) (shift + 7) (c + b % 128 * 2 ^ shift % modulus)
more b g bs shift c p = read_more b ((g + 128) ∷ bs) shift c (marked g bs) p

-- The last byte, which is read first, has no mark.
unmarked : (c : ℕ) → is_proper 0 (group c 4) ≡ true
unmarked c = ground arith

read-Zeros :
    (c j : ℕ) (rest : List ℕ) → c < modulus → continues rest ≡ false → Zeros c j → Reads c j rest
read-Zeros c zero rest h stop z =
    more _ _ _ 0 _ (unmarked c)
    ∙ more _ _ _ 7 _ refl
    ∙ more _ _ _ 14 _ refl
    ∙ more _ _ _ 21 _ refl
    ∙ read_last _ _ 28 _ stop refl
    ∙ ap (λ v. some (v, rest)) (ground (arith))
read-Zeros c (suc zero) rest h stop z =
    more _ _ _ 0 _ (unmarked c)
    ∙ more _ _ _ 7 _ refl
    ∙ more _ _ _ 14 _ refl
    ∙ read_last _ _ 21 _ stop refl
    ∙ ap (λ v. some (v, rest)) (ground (arith, z.zeros 0 (omega arith), z.sign (omega arith)))
read-Zeros c (suc (suc zero)) rest h stop z =
    more _ _ _ 0 _ (unmarked c)
    ∙ more _ _ _ 7 _ refl
    ∙ read_last _ _ 14 _ stop refl
    ∙ ap (λ v. some (v, rest))
        (ground (arith, z.zeros 0 (omega arith), z.zeros 1 (omega arith), z.sign (omega arith)))
read-Zeros c (suc (suc (suc zero))) rest h stop z =
    more _ _ _ 0 _ (unmarked c)
    ∙ read_last _ _ 7 _ stop refl
    ∙ ap (λ v. some (v, rest))
        (ground (
          arith,
          z.zeros 0 (omega arith),
          z.zeros 1 (omega arith),
          z.zeros 2 (omega arith),
          z.sign (omega arith),
        ))
read-Zeros c (suc (suc (suc (suc zero)))) rest h stop z =
    read_last _ _ 0 _ stop (unmarked c)
    ∙ ap (λ v. some (v, rest))
        (ground (
          arith,
          z.zeros 0 (omega arith),
          z.zeros 1 (omega arith),
          z.zeros 2 (omega arith),
          z.zeros 3 (omega arith),
          z.sign (omega arith),
        ))
read-Zeros c (suc (suc (suc (suc (suc j))))) rest h stop z = absurd (omega (arith, z.le))

read-Ones :
    (c j : ℕ) (rest : List ℕ)
    → c < modulus
    → continues rest ≡ false
    → Ones c j
    → 1 ≤ j
    → Reads c j rest
read-Ones c zero rest h stop z l = absurd (omega arith)
read-Ones c (suc zero) rest h stop z l =
    more _ _ _ 0 _ (unmarked c)
    ∙ more _ _ _ 7 _ refl
    ∙ more _ _ _ 14 _ refl
    ∙ read_last _ _ 21 _ stop refl
    ∙ ap (λ v. some (v, rest)) (ground (arith, z.first, z.sign))
read-Ones c (suc (suc zero)) rest h stop z l =
    more _ _ _ 0 _ (unmarked c)
    ∙ more _ _ _ 7 _ refl
    ∙ read_last _ _ 14 _ stop refl
    ∙ ap (λ v. some (v, rest))
        (ground (arith, z.first, z.sign, z.ones 1 (omega arith) (omega arith)))
read-Ones c (suc (suc (suc zero))) rest h stop z l =
    more _ _ _ 0 _ (unmarked c)
    ∙ read_last _ _ 7 _ stop refl
    ∙ ap (λ v. some (v, rest))
        (ground (
          arith,
          z.first,
          z.sign,
          z.ones 1 (omega arith) (omega arith),
          z.ones 2 (omega arith) (omega arith),
        ))
read-Ones c (suc (suc (suc (suc zero)))) rest h stop z l =
    read_last _ _ 0 _ stop (unmarked c)
    ∙ ap (λ v. some (v, rest))
        (ground (
          arith,
          z.first,
          z.sign,
          z.ones 1 (omega arith) (omega arith),
          z.ones 2 (omega arith) (omega arith),
          z.ones 3 (omega arith) (omega arith),
        ))
read-Ones c (suc (suc (suc (suc (suc j))))) rest h stop z l = absurd (omega (arith, z.le))

pub read_cell-encode_cell :
    (c : ℕ) (rest : List ℕ)
    → c < modulus
    → continues rest ≡ false
    → read_cell (reverse (encode_cell c) ++ rest) 0 0 ≡ some (c, rest)
unfolding encode_cell
read_cell-encode_cell c rest h stop = elim (first_byte_cases c h) [
  | inl z ↦ read-Zeros c (first_byte c) rest h stop z
  | inr z ↦ read-Ones c (first_byte c) rest h stop z.0 z.1
]

first_byte_le : (c : ℕ) → c < modulus → first_byte c ≤ 4
first_byte_le c h = elim (first_byte_cases c h) [ inl z ↦ z.le | inr z ↦ z.0.le ]

-- The last byte is always there, and it has no mark.
ends_at : (c j : ℕ) → j ≤ 4 → (bs : List ℕ) × (reverse (drop j (bytes c)) ≡ group c 4 ∷ bs)
ends_at c zero h = (_, refl)
ends_at c (suc zero) h = (_, refl)
ends_at c (suc (suc zero)) h = (_, refl)
ends_at c (suc (suc (suc zero))) h = (_, refl)
ends_at c (suc (suc (suc (suc zero)))) h = (_, refl)
ends_at c (suc (suc (suc (suc (suc j))))) h = absurd (omega arith)

pub ends : (c : ℕ) → c < modulus → (bs : List ℕ) × (reverse (encode_cell c) ≡ group c 4 ∷ bs)
unfolding encode_cell
ends c h = ends_at c (first_byte c) (first_byte_le c h)
