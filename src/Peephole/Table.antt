-- ===== src/Peephole/Table.antt =====
-- The table `sequences` of compiler/source/compiler/sc7.c, for 32-bit cells (without BIT16).
pub mod Loads
pub mod Chains
pub mod Entries
pub mod Arrays
pub mod Moves
pub mod Pushes
pub mod Constants
pub mod Jumps
pub mod Counting
pub mod Natives
pub mod Macros
use Prim.Native.String.{String}
use pawn_x.Prelude.{ℕ, ◌+◌, ◌*◌}

-- `SEQUENCE`
pub record Sequence : Type 0 where
  pub find : String
  pub replace : String
  pub savesize : ℕ

-- `seqsize(o,p)`, of `opcodes` and `opargs` of sc.h.
abbrev pub seqsize : ℕ → ℕ → ℕ
seqsize o p = o * 4 + p * 4
