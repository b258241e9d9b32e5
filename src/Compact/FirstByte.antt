-- ===== src/Compact/FirstByte.antt =====
-- Where `encode_cell` of sc6.c starts to write.
use pawn_x.Prelude.{
  ℕ, zero, suc, ◌+◌, ◌≤◌, ◌<◌, ◌≡◌, ◌≢◌, ◌⊎◌, inl, inr, refl, arith, true, false, ◌&&◌, not, ltb,
  ◌==◌, Bool-cases, ℕ_discrete,
}
use pawn_x.Cell.{modulus}
use pawn_x.Compact.{group, high_bit, skip_zeros, skip_ones, skip_first_ones, first_byte}

-- The groups before `j` are zeros, and `j` itself has the sign of those.
pub record Zeros (c j : ℕ) : Type 0 where
  pub le : j ≤ 4
  pub zeros : (i : ℕ) → i < j → group c i ≡ 0
  pub sign : 0 < j → high_bit (group c j) ≡ false

skip_zeros-Zeros : (rounds c j : ℕ) → Zeros c j → Zeros c (skip_zeros rounds c j)
unfolding skip_zeros
skip_zeros-Zeros zero c j z = z
skip_zeros-Zeros (suc rounds) c j z =
    elim (Bool-cases (ltb j 4 && ((group c j == 0) && not (high_bit (group c (j + 1)))))) [
      | inr f ↦ rw f z
      | inl t ↦ rw t (
          skip_zeros-Zeros rounds c (j + 1) (record {
            le = ground arith;
            zeros = λ i h. elim (ℕ_discrete i j) [
              | yes e ↦ rw e (ground arith)
              | no ne ↦ z.zeros i (omega arith)
            ];
            sign = λ h. ground arith;
          }))
    ]

-- The groups before `j` are ones, and `j` itself has the sign of those.
pub record Ones (c j : ℕ) : Type 0 where
  pub le : j ≤ 4
  pub first : group c 0 ≡ 15
  pub ones : (i : ℕ) → 1 ≤ i → i < j → group c i ≡ 127
  pub sign : high_bit (group c j) ≡ true

skip_ones-Ones :
    (rounds c j : ℕ) → 1 ≤ j → Ones c j → Ones c (skip_ones rounds c j) × (1 ≤ skip_ones rounds c j)
unfolding skip_ones
skip_ones-Ones zero c j l z = (z, l)
skip_ones-Ones (suc rounds) c j l z =
    elim (Bool-cases (ltb j 4 && ((group c j == 127) && high_bit (group c (j + 1))))) [
      | inr f ↦ rw f (z, l)
      | inl t ↦ rw t (
          skip_ones-Ones rounds c (j + 1) (omega arith) (record {
            le = ground arith;
            first = z.first;
            ones = λ i m h. elim (ℕ_discrete i j) [
              | yes e ↦ rw e (ground arith)
              | no ne ↦ z.ones i m (omega arith)
            ];
            sign = ground arith;
          }))
    ]

skip_ones_stop : (rounds c j : ℕ) → group c j ≢ 127 → skip_ones rounds c j ≡ j
unfolding skip_ones
skip_ones_stop zero c j h = refl
skip_ones_stop (suc rounds) c j h = ground arith

Zeros-start : (c : ℕ) → Zeros c 0
Zeros-start c = record {
  le = omega arith;
  zeros = λ i h. absurd (omega arith);
  sign = λ h. absurd (omega arith);
}

-- What is left out repeats the sign of what is kept.
pub first_byte_cases :
    (c : ℕ) → c < modulus → (Zeros c (first_byte c)) ⊎ (Ones c (first_byte c) × (1 ≤ first_byte c))
unfolding first_byte skip_first_ones
first_byte_cases c h =
    let z : Zeros c (skip_zeros 4 c 0) = skip_zeros-Zeros 4 c 0 (Zeros-start c) in
    elim (Bool-cases ((skip_zeros 4 c 0 == 0) && ((group c 0 == 15) && high_bit (group c 1)))) [
      | inl t ↦
          let e : skip_zeros 4 c 0 ≡ 0 = ground arith in
          inr (
            rw t (
              skip_ones-Ones 4 c (skip_zeros 4 c 0 + 1) (omega arith) (record {
                le = omega arith;
                first = ground arith;
                ones = λ i m l. absurd (omega arith);
                sign = rw e (ground arith);
              })))
      | inr f ↦
          let stay : group c (skip_zeros 4 c 0) ≢ 127 = elim (ℕ_discrete (skip_zeros 4 c 0) 0) [
            | yes e ↦ rw e (omega arith)
            | no ne ↦ ground (arith, z.sign)
          ] in
          inl (rw (f, skip_ones_stop 4 c (skip_zeros 4 c 0) stay) z)
    ]
