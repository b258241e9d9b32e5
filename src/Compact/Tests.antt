-- ===== src/Compact/Tests.antt =====
-- Encoded cells at concrete values.
use pawn_x.Prelude.{
  ℕ, zero, suc, ◌-◌, ◌*◌, ◌≤◌, ◌<◌, ◌≡◌, List, [], ◌∷◌, All, arith, refl, true, false, none, some,
  length, replicate,
}
use pawn_x.Cell.{modulus}
use pawn_x.Memory.{Memory}
use pawn_x.MemoryFile.{slice}
use pawn_x.Compact.{
  Out, encode_cell, write_encoded, expand, first_byte, skip_zeros, skip_first_ones, skip_ones,
}
use pawn_x.Compact.Roundtrip.{fresh, expand-write_encoded}

abbrev cells : List ℕ
cells = 0 ∷ 63 ∷ 64 ∷ (modulus - 1) ∷ (modulus - 65) ∷ 2147483648 ∷ 2147483647 ∷ []

-- One byte holds -64 to 63.
encoded :
    (encode_cell 63 ≡ 63 ∷ [])
    × (encode_cell 64 ≡ 128 ∷ 64 ∷ [])
    × (encode_cell (modulus - 1) ≡ 127 ∷ [])
    × (encode_cell (modulus - 65) ≡ 255 ∷ 63 ∷ [])
    × (encode_cell 2147483648 ≡ 136 ∷ 128 ∷ 128 ∷ 128 ∷ 0 ∷ [])
unfolding encode_cell first_byte skip_zeros skip_first_ones skip_ones
encoded = (refl, refl, refl, refl, refl)

-- A file that grows by too much is given up.
given_up : write_encoded true (replicate 62 2147483648) fresh ≡ none
unfolding write_encoded encode_cell first_byte skip_zeros skip_first_ones skip_ones
given_up = refl

-- Cells that grow: all but the first are kept among the spare cells.
abbrev grown_cells : List ℕ
grown_cells = 2147483648 ∷ 2147483647 ∷ 1073741824 ∷ 1 ∷ []

abbrev compact : Out
compact = record {
  bin =
      136 ∷ 128 ∷ 128 ∷ 128 ∷ 0 ∷ 135 ∷ 255 ∷ 255 ∷ 255 ∷ 127 ∷ 132 ∷ 128 ∷ 128 ∷ 128 ∷ 0 ∷ 1 ∷ [];
  bytes_in = 16;
  bytes_out = 16;
}

abbrev byte_at : List ℕ → ℕ → ℕ
byte_at [] n = 255
byte_at (b ∷ bs) zero = b
byte_at (b ∷ bs) (suc n) = byte_at bs n

abbrev code : Memory
code = byte_at compact.bin

grown_cells-All : All (λ c. c < modulus) grown_cells
grown_cells-All = omega arith

written : write_encoded true grown_cells fresh ≡ some compact
unfolding write_encoded encode_cell first_byte skip_zeros skip_first_ones skip_ones
written = refl

loaded : slice code 0 (length compact.bin) ≡ compact.bin
unfolding slice
loaded = refl

expand-write_encoded_example :
    (plain_file : Out) × (code' : Memory) × (write_encoded false grown_cells fresh
      ≡ some plain_file)
    × (expand code (length compact.bin) (4 * length grown_cells) ≡ some code')
    × (slice code' 0 (4 * length grown_cells) ≡ plain_file.bin)
    × ((x : ℕ) → 4 * length grown_cells ≤ x → code' x ≡ code x)
expand-write_encoded_example =
    expand-write_encoded grown_cells compact code grown_cells-All written loaded
