-- ===== src/Machine/Access.antt =====
-- Indirect stores and loads, which check their address (amx.c, OP_STOR_I and OP_LOAD_I).
use pawn_x.Prelude.{ℕ, ◌+◌, ◌≤◌, ◌<◌, ◌≡◌, ◌⊎◌, refl, ◌∙◌, arith, false}
use pawn_x.Cell.{modulus}
use pawn_x.Memory.{write, read}
use pawn_x.Memory.Laws.{read-write_self, read-write_far}
use pawn_x.Machine.{Program, State, next, is_bad}
use pawn_x.Machine.Load
use pawn_x.Machine.Load.{load_i}
use pawn_x.Machine.Store
use pawn_x.Machine.Store.{stor_i}

abbrev pub stored : State → State
stored s = record s { mem = write s.mem s.alt s.pri }

-- At an address outside the gap between heap and stack and below the top of the stack, OP_STOR_I
-- stores, OP_LOAD_I at the same address loads what was stored, and every cell apart from it reads as
-- before.
pub load_i-stor_i :
    (p : Program) (s : State) (b : ℕ)
    → s.pri < modulus
    → is_bad p s s.alt ≡ false
    → (b + 4 ≤ s.alt) ⊎ (s.alt + 4 ≤ b)
    → (Store.exec p stor_i s ≡ next (stored s))
      × ((Load.exec p load_i (record (stored s) { pri = s.alt }) ≡ next (stored s))
          × (read (stored s).mem b ≡ read s.mem b))
unfolding Store.exec Load.exec
load_i-stor_i p s b h good far =
    let e : read (write s.mem s.alt s.pri) s.alt ≡ s.pri =
      read-write_self s.mem s.alt s.pri ∙ omega arith in
    (rw good refl, (rw (good, e) refl, read-write_far s.mem s.alt s.pri b far))
