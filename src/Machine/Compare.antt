-- ===== src/Machine/Compare.antt =====
-- Comparisons, increments and decrements (amx.c, OP_EQ to OP_DEC_I).
use pawn_x.Prelude.{ℕ, not, leb, ltb, ◌==◌}
use pawn_x.Cell.{add, sub, slt, sle, of_bool}
use pawn_x.Memory.{Memory, read, write}
use pawn_x.Machine.{Program, State, Outcome, next}

pub data Compare : Type 0 where
  eq neq less leq grtr geq sless sleq sgrtr sgeq : Compare
  eq_c_pri eq_c_alt : ℕ → Compare
  inc_pri inc_alt : Compare
  inc inc_s : ℕ → Compare
  inc_i dec_pri dec_alt : Compare
  dec dec_s : ℕ → Compare
  dec_i : Compare

-- `*(cell *)(data+a) += 1`, and `-= 1`.
abbrev pub increment : Memory → ℕ → Memory
increment m a = write m a (add (read m a) 1)

abbrev pub decrement : Memory → ℕ → Memory
decrement m a = write m a (sub (read m a) 1)

unfoldable pub exec : Program → Compare → State → Outcome
exec p eq s = next (record s { pri = of_bool (s.pri == s.alt) })
exec p neq s = next (record s { pri = of_bool (not (s.pri == s.alt)) })
exec p less s = next (record s { pri = of_bool (ltb s.pri s.alt) })
exec p leq s = next (record s { pri = of_bool (leb s.pri s.alt) })
exec p grtr s = next (record s { pri = of_bool (ltb s.alt s.pri) })
exec p geq s = next (record s { pri = of_bool (leb s.alt s.pri) })
exec p sless s = next (record s { pri = of_bool (slt s.pri s.alt) })
exec p sleq s = next (record s { pri = of_bool (sle s.pri s.alt) })
exec p sgrtr s = next (record s { pri = of_bool (slt s.alt s.pri) })
exec p sgeq s = next (record s { pri = of_bool (sle s.alt s.pri) })
exec p (eq_c_pri v) s = next (record s { pri = of_bool (s.pri == v) })
exec p (eq_c_alt v) s = next (record s { pri = of_bool (s.alt == v) })
exec p inc_pri s = next (record s { pri = add s.pri 1 })
exec p inc_alt s = next (record s { alt = add s.alt 1 })
exec p (inc offs) s = next (record s { mem = increment s.mem offs })
exec p (inc_s offs) s = next (record s { mem = increment s.mem (add s.frm offs) })
exec p inc_i s = next (record s { mem = increment s.mem s.pri })
exec p dec_pri s = next (record s { pri = sub s.pri 1 })
exec p dec_alt s = next (record s { alt = sub s.alt 1 })
exec p (dec offs) s = next (record s { mem = decrement s.mem offs })
exec p (dec_s offs) s = next (record s { mem = decrement s.mem (add s.frm offs) })
exec p dec_i s = next (record s { mem = decrement s.mem s.pri })
