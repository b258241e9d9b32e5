-- ===== src/Machine/Block.antt =====
-- The block instructions and the bounds check (amx.c, OP_MOVS to OP_FILL, OP_BOUNDS).
use pawn_x.Prelude.{ℕ, zero, suc, ◌+◌, ◌-◌, ◌/◌, Bool, ◌&&◌, ◌||◌, leb, ltb, if◌then◌else◌}
use pawn_x.Cell.{add, slt}
use pawn_x.Memory.{Memory, write}
use pawn_x.Machine.{Program, State, Outcome, next, abort, is_bad, err_memaccess, err_bounds}

pub data Block : Type 0 where
  movs cmps fill bounds : ℕ → Block

-- The test of the top of a block: one past it may be `hea` or `stp`.
abbrev pub is_bad_top : Program → State → ℕ → Bool
is_bad_top p s a = (slt s.hea a && slt a s.stk) || ltb p.stp a

-- The tests on a block of `n` bytes at `a`.
abbrev pub is_bad_block : Program → State → ℕ → ℕ → Bool
is_bad_block p s a n = is_bad p s a || is_bad_top p s (add a n)

-- `memcpy(data+alt, data+pri, n)`
unfoldable pub copy : Memory → ℕ → ℕ → ℕ → Memory
copy m to from n x = if leb to x && ltb x (to + n) then m (from + (x - to)) else m x

-- `for (i=alt; offs>=sizeof(cell); i+=sizeof(cell), offs-=sizeof(cell)) _W(data,i,pri);`, with
-- `offs / 4` rounds.
unfoldable pub fill_cells : ℕ → Memory → ℕ → ℕ → Memory
fill_cells zero m a v = m
fill_cells (suc n) m a v = fill_cells n (write m a v) (a + 4) v

-- `memcmp` is the C library's: of the memory, two addresses and a length it makes the cell that
-- `pri` becomes.
module _ (memcmp : Memory → ℕ → ℕ → ℕ → ℕ) where
  unfoldable pub exec : Program → Block → State → Outcome
  unfolding copy fill_cells
  exec p (movs n) s =
      if is_bad_block p s s.pri n || is_bad_block p s s.alt n
      then abort s err_memaccess
      else next (record s { mem = copy s.mem s.alt s.pri n })
  exec p (cmps n) s =
      if is_bad_block p s s.pri n || is_bad_block p s s.alt n
      then abort s err_memaccess
      else next (record s { pri = memcmp s.mem s.alt s.pri n })
  exec p (fill n) s =
      if is_bad_block p s s.alt n
      then abort s err_memaccess
      else next (record s { mem = fill_cells (n / 4) s.mem s.alt s.pri })
  exec p (bounds limit) s =
      if ltb limit s.pri
      then abort (record s { amx = record s.amx { cip = s.cip } }) err_bounds
      else next s
