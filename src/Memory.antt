-- ===== src/Memory.antt =====
-- The data memory of the abstract machine (`data` of `amx_Exec`): bytes, with little-endian access
-- to 1, 2 and 4 of them, the macros `_R`, `_R8`, `_R16`, `_R32` and their `_W` of
-- compiler/source/amx/amx.c. The macros check nothing, so memory is total here.
pub mod Laws
use pawn_x.Prelude.{ℕ, ◌+◌, ◌*◌, ◌/◌, ◌%◌, ◌==◌, if◌then◌else◌}

abbrev pub Memory : Type 0
Memory = ℕ → ℕ

unfoldable pub read8 : Memory → ℕ → ℕ
read8 m a = m a % 256

unfoldable pub read16 : Memory → ℕ → ℕ
unfolding read8
read16 m a = read8 m a + 256 * read8 m (a + 1)

-- `_R` and `_R32`
unfoldable pub read : Memory → ℕ → ℕ
unfolding read8
read m a = read8 m a + 256 * read8 m (a + 1) + 65536 * read8 m (a + 2) + 16777216 * read8 m (a + 3)

unfoldable pub write8 : Memory → ℕ → ℕ → Memory
write8 m a v x = if x == a then v % 256 else m x

unfoldable pub write16 : Memory → ℕ → ℕ → Memory
write16 m a v x = if x == a then v % 256 else if x == a + 1 then v / 256 % 256 else m x

-- `_W` and `_W32`
unfoldable pub write : Memory → ℕ → ℕ → Memory
write m a v x =
    if x == a
    then v % 256
    else if x == a + 1
    then v / 256 % 256
    else if x == a + 2
    then v / 65536 % 256
    else if x == a + 3
    then v / 16777216 % 256
    else m x
