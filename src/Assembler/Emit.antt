-- ===== src/Assembler/Emit.antt =====
-- The functions of the table `opcodelist` (compiler/source/compiler/sc6.c): the cells that they write
-- when `fbin` is not NULL, and the size that they return.
use pawn_x.Prelude.{
  ℕ, zero, suc, ◌*◌, ◌%◌, ◌^◌, ◌&&◌, ◌==◌, if◌then◌else◌, List, [], ◌∷◌, length, replicate,
}
use pawn_x.Cell.{is_neg}
use pawn_x.Peephole.Table.{seqsize}
use pawn_x.Assembler.Table.{
  Func, noop, set_currentfile, parm0, parm1, parm2, parm3, parm4, parm5, do_dump, do_dumpn, do_call,
  do_jump, do_case,
}
use pawn_x.Assembler.Number.{Names, hex2long, getparam, take_name, is_space, label_at}

-- The values of so many parameters in turn.
unfoldable pub getparams : ℕ → Names → List ℕ → List ℕ
unfolding getparam
getparams zero names params = []
getparams (suc n) names params =
    let (p, params') = getparam names params in p ∷ getparams n names params'

-- `while (isspace(*params)) params++;`
unfoldable pub skipwhitespace : List ℕ → List ℕ
skipwhitespace [] = []
skipwhitespace (c ∷ s) = let rest = skipwhitespace s in if is_space c then rest else c ∷ s

-- The loop of `do_dump`, with a bound on the number of values.
unfoldable pub dumped : ℕ → List ℕ → List ℕ
unfolding hex2long skipwhitespace
dumped zero params = []
dumped (suc values) [] = []
dumped (suc values) (c ∷ s) =
    let (p, rest) = hex2long (c ∷ s) in p ∷ dumped values (skipwhitespace rest)

-- `num` of `do_dumpn`, below which the loop of `write_encoded_n` counts.
unfoldable pub dump_count : List ℕ → ℕ
unfolding hex2long
dump_count params = let num = (hex2long (hex2long params).1).0 in if is_neg num then 0 else num

-- The address of `do_call` for a name.
unfoldable pub call_target : Names → List ℕ → ℕ
unfolding hex2long
call_target names [] = names.address (names.fcurrent) []
call_target names (c ∷ []) = names.address (names.fcurrent) []
call_target names (c ∷ d ∷ name) =
    if (c == b'l') && (d == b'.')
    then label_at names (hex2long name).0
    else names.address (names.fcurrent) (d ∷ name)

-- The cells that a function writes.
unfoldable pub written_cells : Func → Names → List ℕ → ℕ → List ℕ
unfolding getparams dumped dump_count call_target take_name hex2long
written_cells noop names params opcode = []
written_cells set_currentfile names params opcode = []
written_cells parm0 names params opcode = opcode ∷ []
written_cells parm1 names params opcode = opcode ∷ getparams 1 names params
written_cells parm2 names params opcode = opcode ∷ getparams 2 names params
written_cells parm3 names params opcode = opcode ∷ getparams 3 names params
written_cells parm4 names params opcode = opcode ∷ getparams 4 names params
written_cells parm5 names params opcode = opcode ∷ getparams 5 names params
written_cells do_dump names params opcode = dumped (length params) params
written_cells do_dumpn names params opcode = replicate (dump_count params) (hex2long params).0
written_cells do_call names params opcode = opcode ∷ call_target names (take_name params).0 ∷ []
written_cells do_jump names params opcode = opcode ∷ label_at names (hex2long params).0 ∷ []
written_cells do_case names params opcode =
    let (v, rest) = hex2long params in v ∷ label_at names (hex2long rest).0 ∷ []

-- The size that a function returns, in bytes; `do_dumpn` on a count that is not negative.
unfoldable pub returned_size : Func → List ℕ → ℕ
unfolding dumped dump_count
returned_size noop params = 0
returned_size set_currentfile params = 0
returned_size parm0 params = seqsize 1 0
returned_size parm1 params = seqsize 1 1
returned_size parm2 params = seqsize 1 2
returned_size parm3 params = seqsize 1 3
returned_size parm4 params = seqsize 1 4
returned_size parm5 params = seqsize 1 5
returned_size do_dump params = length (dumped (length params) params) * 4
returned_size do_dumpn params = dump_count params * 4
returned_size do_call params = seqsize 1 1
returned_size do_jump params = seqsize 1 1
returned_size do_case params = seqsize 0 2

-- `fcurrent` behind a function, a `short`.
unfoldable pub current_after : Func → Names → List ℕ → ℕ
unfolding getparam
current_after set_currentfile names params = (getparam names params).0 % 2 ^ 16
current_after func names params = names.fcurrent
