-- ===== src/Machine/Arith.antt =====
-- Shifts and arithmetic (amx.c, OP_SHL to OP_SIGN_ALT), with TRUNC_SDIV, which every C compiler
-- defines whose division truncates.
use Prim.Native.Nat.{bit_and, bit_or, bit_xor}
use pawn_x.Prelude.{ℕ, ◌-◌, ◌/◌, ◌%◌, ◌&&◌, not, leb, ◌==◌, if◌then◌else◌}
use pawn_x.Cell.{
  modulus, cell_min, add, sub, mul, neg, is_neg, tdiv, trem, shl, shr, sshr, invert, of_bool,
}
use pawn_x.Memory.{write}
use pawn_x.Machine.{Program, State, Outcome, next, abort, err_divide}

pub data Arith : Type 0 where
  shl_op shr_op sshr_op : Arith
  shl_c_pri shl_c_alt shr_c_pri shr_c_alt : ℕ → Arith
  smul sdiv sdiv_alt umul udiv udiv_alt : Arith
  add_op sub_op sub_alt and_op or_op xor_op not_op neg_op invert_op : Arith
  add_c smul_c : ℕ → Arith
  zero_pri zero_alt : Arith
  zero_m zero_s : ℕ → Arith
  sign_pri sign_alt : Arith

-- `if ((r & 0xff)>=0x80) r|= ~ (ucell)0xff;`
unfoldable pub sign_extend : ℕ → ℕ
sign_extend r = if leb 128 (bit_and r 255) then bit_or r (invert 255) else r

-- The end of both divisions: "fiddle" with quotient and remainder to get floored division.
abbrev pub floored : State → ℕ → ℕ → ℕ → Outcome
floored s quotient remainder divisor =
    if not (remainder == 0) && is_neg (bit_xor remainder divisor)
    then next (record s { pri = sub quotient 1; alt = add remainder divisor })
    else next (record s { pri = quotient; alt = remainder })

-- OP_SDIV: `pri` is the dividend. Under TRUNC_SDIV the source assigns `pri=pri/offs` and then
-- `alt=pri%offs`, so the remainder is that of the quotient.
unfoldable pub exec_sdiv : State → Outcome
exec_sdiv s =
    if s.alt == 0
    then abort s err_divide
    else if s.alt == modulus - 1 && s.pri == cell_min
    then next (record s { alt = 0 })
    else floored s (tdiv s.pri s.alt) (trem (tdiv s.pri s.alt) s.alt) s.alt

-- OP_SDIV_ALT: `alt` is the dividend.
unfoldable pub exec_sdiv_alt : State → Outcome
exec_sdiv_alt s =
    if s.pri == 0
    then abort s err_divide
    else if s.pri == modulus - 1 && s.alt == cell_min
    then next (record s { pri = s.alt; alt = 0 })
    else floored s (tdiv s.alt s.pri) (trem s.alt s.pri) s.pri

unfoldable pub exec : Program → Arith → State → Outcome
unfolding sign_extend exec_sdiv exec_sdiv_alt
exec p shl_op s = next (record s { pri = shl s.pri s.alt })
exec p shr_op s = next (record s { pri = shr s.pri s.alt })
exec p sshr_op s = next (record s { pri = sshr s.pri s.alt })
exec p (shl_c_pri n) s = next (record s { pri = shl s.pri n })
exec p (shl_c_alt n) s = next (record s { alt = shl s.alt n })
exec p (shr_c_pri n) s = next (record s { pri = shr s.pri n })
exec p (shr_c_alt n) s = next (record s { alt = shr s.alt n })
exec p smul s = next (record s { pri = mul s.pri s.alt })
exec p sdiv s = exec_sdiv s
exec p sdiv_alt s = exec_sdiv_alt s
exec p umul s = next (record s { pri = mul s.pri s.alt })
exec p udiv s =
    if s.alt == 0
    then abort s err_divide
    else next (record s { pri = s.pri / s.alt; alt = s.pri % s.alt })
exec p udiv_alt s =
    if s.pri == 0
    then abort s err_divide
    else next (record s { pri = s.alt / s.pri; alt = s.alt % s.pri })
exec p add_op s = next (record s { pri = add s.pri s.alt })
exec p sub_op s = next (record s { pri = sub s.pri s.alt })
exec p sub_alt s = next (record s { pri = sub s.alt s.pri })
exec p and_op s = next (record s { pri = bit_and s.pri s.alt })
exec p or_op s = next (record s { pri = bit_or s.pri s.alt })
exec p xor_op s = next (record s { pri = bit_xor s.pri s.alt })
exec p not_op s = next (record s { pri = of_bool (s.pri == 0) })
exec p neg_op s = next (record s { pri = neg s.pri })
exec p invert_op s = next (record s { pri = invert s.pri })
exec p (add_c v) s = next (record s { pri = add s.pri v })
exec p (smul_c v) s = next (record s { pri = mul s.pri v })
exec p zero_pri s = next (record s { pri = 0 })
exec p zero_alt s = next (record s { alt = 0 })
exec p (zero_m offs) s = next (record s { mem = write s.mem offs 0 })
exec p (zero_s offs) s = next (record s { mem = write s.mem (add s.frm offs) 0 })
exec p sign_pri s = next (record s { pri = sign_extend s.pri })
exec p sign_alt s = next (record s { alt = sign_extend s.alt })
