-- ===== src/Memory/Laws.antt =====
-- Reads after writes.
use pawn_x.Prelude.{ℕ, ◌+◌, ◌≤◌, ◌<◌, ◌%◌, ◌≡◌, ◌⊎◌, arith}
use pawn_x.Cell.{modulus}
use pawn_x.Memory.{Memory, read, write}

pub read-lt : (m : Memory) (a : ℕ) → read m a < modulus
unfolding read
read-lt m a = omega arith

-- A cell reads back as it was written.
pub read-write_self : (m : Memory) (a v : ℕ) → read (write m a v) a ≡ v % modulus
unfolding read write
read-write_self m a v = ground arith

-- A write leaves the bytes outside its four alone.
pub write_far : (m : Memory) (a v x : ℕ) → (x < a) ⊎ (a + 4 ≤ x) → write m a v x ≡ m x
unfolding write
write_far m a v x h = ground arith

-- A cell that the write does not overlap reads as before.
pub read-write_far :
    (m : Memory) (a v b : ℕ) → (b + 4 ≤ a) ⊎ (a + 4 ≤ b) → read (write m a v) b ≡ read m b
unfolding read
read-write_far m a v b h = ground (
  arith,
  write_far m a v b,
  write_far m a v (b + 1),
  write_far m a v (b + 2),
  write_far m a v (b + 3),
)
