-- ===== src/Assembler/Table.antt =====
-- The table `opcodelist` of compiler/source/compiler/sc6.c.
use Prim.Native.String.{String}
use pawn_x.Prelude.{ℕ, List, [], ◌∷◌, ◌++◌}

-- The functions of the table, an `OPCODE_PROC` each.
pub data Func : Type 0 where
  noop set_currentfile parm0 parm1 parm2 parm3 parm4 parm5 do_dump do_dumpn do_call do_jump
        do_case :
      Func

-- `sIN_CSEG`, `sIN_DSEG`, or 0.
pub data Segment : Type 0 where
  no_segment cseg dseg : Segment

-- `OPCODE`; an empty name stands for NULL.
pub record Opcode : Type 0 where
  pub opcode : ℕ
  pub name : String
  pub segment : Segment
  pub func : Func

abbrev entry : ℕ → String → Segment → Func → Opcode
entry opcode name segment func = record {
  opcode = opcode;
  name = name;
  segment = segment;
  func = func;
}

-- The invalid instruction, and the names up to `invert`.
unfoldable pub codes_a_to_i : List Opcode
codes_a_to_i =
    entry 0 "" no_segment noop
    ∷ entry 78 "add" cseg parm0
    ∷ entry 87 "add.c" cseg parm1
    ∷ entry 14 "addr.alt" cseg parm1
    ∷ entry 13 "addr.pri" cseg parm1
    ∷ entry 30 "align.alt" cseg parm1
    ∷ entry 29 "align.pri" cseg parm1
    ∷ entry 81 "and" cseg parm0
    ∷ entry 121 "bounds" cseg parm1
    ∷ entry 137 "break" cseg parm0
    ∷ entry 49 "call" cseg do_call
    ∷ entry 50 "call.pri" cseg parm0
    ∷ entry 0 "case" cseg do_case
    ∷ entry 130 "casetbl" cseg parm0
    ∷ entry 118 "cmps" cseg parm1
    ∷ entry 0 "code" cseg set_currentfile
    ∷ entry 156 "const" cseg parm2
    ∷ entry 12 "const.alt" cseg parm1
    ∷ entry 11 "const.pri" cseg parm1
    ∷ entry 157 "const.s" cseg parm2
    ∷ entry 0 "data" dseg set_currentfile
    ∷ entry 114 "dec" cseg parm1
    ∷ entry 113 "dec.alt" cseg parm0
    ∷ entry 116 "dec.i" cseg parm0
    ∷ entry 112 "dec.pri" cseg parm0
    ∷ entry 115 "dec.s" cseg parm1
    ∷ entry 0 "dump" dseg do_dump
    ∷ entry 0 "dumpn" dseg do_dumpn
    ∷ entry 95 "eq" cseg parm0
    ∷ entry 106 "eq.c.alt" cseg parm1
    ∷ entry 105 "eq.c.pri" cseg parm1
    ∷ entry 119 "fill" cseg parm1
    ∷ entry 100 "geq" cseg parm0
    ∷ entry 99 "grtr" cseg parm0
    ∷ entry 120 "halt" cseg parm1
    ∷ entry 45 "heap" cseg parm1
    ∷ entry 27 "idxaddr" cseg parm0
    ∷ entry 28 "idxaddr.b" cseg parm1
    ∷ entry 109 "inc" cseg parm1
    ∷ entry 108 "inc.alt" cseg parm0
    ∷ entry 111 "inc.i" cseg parm0
    ∷ entry 107 "inc.pri" cseg parm0
    ∷ entry 110 "inc.s" cseg parm1
    ∷ entry 86 "invert" cseg parm0
    ∷ []

-- The names from `jeq`.
unfoldable pub codes_j_to_o : List Opcode
codes_j_to_o =
    entry 55 "jeq" cseg do_jump
    ∷ entry 60 "jgeq" cseg do_jump
    ∷ entry 59 "jgrtr" cseg do_jump
    ∷ entry 58 "jleq" cseg do_jump
    ∷ entry 57 "jless" cseg do_jump
    ∷ entry 56 "jneq" cseg do_jump
    ∷ entry 54 "jnz" cseg do_jump
    ∷ entry 52 "jrel" cseg parm1
    ∷ entry 64 "jsgeq" cseg do_jump
    ∷ entry 63 "jsgrtr" cseg do_jump
    ∷ entry 62 "jsleq" cseg do_jump
    ∷ entry 61 "jsless" cseg do_jump
    ∷ entry 51 "jump" cseg do_jump
    ∷ entry 128 "jump.pri" cseg parm0
    ∷ entry 53 "jzer" cseg do_jump
    ∷ entry 31 "lctrl" cseg parm1
    ∷ entry 98 "leq" cseg parm0
    ∷ entry 97 "less" cseg parm0
    ∷ entry 25 "lidx" cseg parm0
    ∷ entry 26 "lidx.b" cseg parm1
    ∷ entry 2 "load.alt" cseg parm1
    ∷ entry 154 "load.both" cseg parm2
    ∷ entry 9 "load.i" cseg parm0
    ∷ entry 1 "load.pri" cseg parm1
    ∷ entry 4 "load.s.alt" cseg parm1
    ∷ entry 155 "load.s.both" cseg parm2
    ∷ entry 3 "load.s.pri" cseg parm1
    ∷ entry 10 "lodb.i" cseg parm1
    ∷ entry 6 "lref.alt" cseg parm1
    ∷ entry 5 "lref.pri" cseg parm1
    ∷ entry 8 "lref.s.alt" cseg parm1
    ∷ entry 7 "lref.s.pri" cseg parm1
    ∷ entry 34 "move.alt" cseg parm0
    ∷ entry 33 "move.pri" cseg parm0
    ∷ entry 117 "movs" cseg parm1
    ∷ entry 85 "neg" cseg parm0
    ∷ entry 96 "neq" cseg parm0
    ∷ entry 134 "nop" cseg parm0
    ∷ entry 84 "not" cseg parm0
    ∷ entry 82 "or" cseg parm0
    ∷ []

-- The names from `pop.alt`.
unfoldable pub codes_p_to_z : List Opcode
codes_p_to_z =
    entry 43 "pop.alt" cseg parm0
    ∷ entry 42 "pop.pri" cseg parm0
    ∷ entry 46 "proc" cseg parm0
    ∷ entry 40 "push" cseg parm1
    ∷ entry 133 "push.adr" cseg parm1
    ∷ entry 37 "push.alt" cseg parm0
    ∷ entry 39 "push.c" cseg parm1
    ∷ entry 36 "push.pri" cseg parm0
    ∷ entry 38 "push.r" cseg parm1
    ∷ entry 41 "push.s" cseg parm1
    ∷ entry 139 "push2" cseg parm2
    ∷ entry 141 "push2.adr" cseg parm2
    ∷ entry 138 "push2.c" cseg parm2
    ∷ entry 140 "push2.s" cseg parm2
    ∷ entry 143 "push3" cseg parm3
    ∷ entry 145 "push3.adr" cseg parm3
    ∷ entry 142 "push3.c" cseg parm3
    ∷ entry 144 "push3.s" cseg parm3
    ∷ entry 147 "push4" cseg parm4
    ∷ entry 149 "push4.adr" cseg parm4
    ∷ entry 146 "push4.c" cseg parm4
    ∷ entry 148 "push4.s" cseg parm4
    ∷ entry 151 "push5" cseg parm5
    ∷ entry 153 "push5.adr" cseg parm5
    ∷ entry 150 "push5.c" cseg parm5
    ∷ entry 152 "push5.s" cseg parm5
    ∷ entry 47 "ret" cseg parm0
    ∷ entry 48 "retn" cseg parm0
    ∷ entry 32 "sctrl" cseg parm1
    ∷ entry 73 "sdiv" cseg parm0
    ∷ entry 74 "sdiv.alt" cseg parm0
    ∷ entry 104 "sgeq" cseg parm0
    ∷ entry 103 "sgrtr" cseg parm0
    ∷ entry 65 "shl" cseg parm0
    ∷ entry 69 "shl.c.alt" cseg parm1
    ∷ entry 68 "shl.c.pri" cseg parm1
    ∷ entry 66 "shr" cseg parm0
    ∷ entry 71 "shr.c.alt" cseg parm1
    ∷ entry 70 "shr.c.pri" cseg parm1
    ∷ entry 94 "sign.alt" cseg parm0
    ∷ entry 93 "sign.pri" cseg parm0
    ∷ entry 102 "sleq" cseg parm0
    ∷ entry 101 "sless" cseg parm0
    ∷ entry 72 "smul" cseg parm0
    ∷ entry 88 "smul.c" cseg parm1
    ∷ entry 20 "sref.alt" cseg parm1
    ∷ entry 19 "sref.pri" cseg parm1
    ∷ entry 22 "sref.s.alt" cseg parm1
    ∷ entry 21 "sref.s.pri" cseg parm1
    ∷ entry 67 "sshr" cseg parm0
    ∷ entry 44 "stack" cseg parm1
    ∷ entry 0 "stksize" no_segment noop
    ∷ entry 16 "stor.alt" cseg parm1
    ∷ entry 23 "stor.i" cseg parm0
    ∷ entry 15 "stor.pri" cseg parm1
    ∷ entry 18 "stor.s.alt" cseg parm1
    ∷ entry 17 "stor.s.pri" cseg parm1
    ∷ entry 24 "strb.i" cseg parm1
    ∷ entry 79 "sub" cseg parm0
    ∷ entry 80 "sub.alt" cseg parm0
    ∷ entry 132 "swap.alt" cseg parm0
    ∷ entry 131 "swap.pri" cseg parm0
    ∷ entry 129 "switch" cseg do_jump
    ∷ entry 123 "sysreq.c" cseg parm1
    ∷ entry 135 "sysreq.n" cseg parm2
    ∷ entry 122 "sysreq.pri" cseg parm0
    ∷ entry 76 "udiv" cseg parm0
    ∷ entry 77 "udiv.alt" cseg parm0
    ∷ entry 75 "umul" cseg parm0
    ∷ entry 35 "xchg" cseg parm0
    ∷ entry 83 "xor" cseg parm0
    ∷ entry 91 "zero" cseg parm1
    ∷ entry 90 "zero.alt" cseg parm0
    ∷ entry 89 "zero.pri" cseg parm0
    ∷ entry 92 "zero.s" cseg parm1
    ∷ []

unfoldable pub opcodelist : List Opcode
opcodelist = codes_a_to_i ++ (codes_j_to_o ++ codes_p_to_z)
