-- ===== src/Peephole/Reorder.antt =====
-- The reordering of expressions in the staging buffer (compiler/source/compiler/sc7.c): `stgstring`,
-- `rebuffer` and `stgout`. `stgstring` gives the blocks that it sends to `stgopt`, on fuel; `none` is a
-- text whose brackets do not match, or an argument that was never marked.
pub mod Tree
mod Tests
use pawn_x.Prelude.{
  ℕ, zero, suc, ◌+◌, ◌-◌, Bool, true, false, ◌&&◌, not, leb, ◌==◌, if◌then◌else◌, List, [], ◌∷◌,
  ◌++◌, Option, none, some, length, take, drop,
}
use pawn_x.Peephole.Optimise.{Optimization, stat_write, strings_from, stgopt}
use pawn_x.Peephole.Stage.{Stage, joins, filewrite}

-- `sSTARTREORDER`, `sENDREORDER` and `sEXPRSTART`
abbrev pub start_reorder : ℕ
start_reorder = 1

abbrev pub end_reorder : ℕ
end_reorder = 2

abbrev pub expr_start : ℕ
expr_start = 128

-- `stack`: the arguments that are finished, the last first, and the one that is not, if `arg>=0`.
abbrev pub Args : Type 0
Args = List (ℕ × List ℕ)

abbrev pub finish : Option (ℕ × List ℕ) → Args → Args
finish none stack = stack
finish (some a) stack = a ∷ stack

abbrev pub extend : Option (ℕ × List ℕ) → ℕ → Option (ℕ × List ℕ)
extend none c = none
extend (some (k, bytes)) c = some (k, bytes ++ c ∷ [])

-- The loop over a block in brackets, from behind the first: whether `start` is inside a string that
-- `start+=strlen(start)+1` skips, `nest`, and the stack. It gives the stack and the text behind.
pub scan_args : Bool → ℕ → Option (ℕ × List ℕ) → Args → List ℕ → Option (Args × List ℕ)
scan_args string nest arg stack [] = none
scan_args string nest arg stack (c ∷ t) =
    let skipped = scan_args (not (c == 0)) nest (extend arg c) stack t in
    let opened = scan_args false (nest + 1) (extend arg c) stack t in
    let closed = scan_args false (nest - 1) (extend arg c) stack t in
    let marked = scan_args false nest (some (c - expr_start, [])) (finish arg stack) t in
    let inner = scan_args false nest (extend arg c) stack t in
    if string
    then skipped
    else if c == start_reorder
    then opened
    else if c == end_reorder
    then if nest == 1 then some (finish arg stack, t) else closed
    else if leb expr_start c
    then if nest == 1 then marked else inner
    else skipped

-- `argc`, one more than the highest argument.
pub arg_count : Args → ℕ
arg_count [] = 0
arg_count ((k, bytes) ∷ stack) = let argc = arg_count stack in if leb argc k then k + 1 else argc

pub find_arg : ℕ → Args → Option (List ℕ)
find_arg k [] = none
find_arg k ((j, bytes) ∷ stack) = let rest = find_arg k stack in if j == k then some bytes else rest

-- The blocks of two parts, if both have any.
abbrev pub both :
    Option (List (List ℕ) × Bool) → Option (List (List ℕ) × Bool) → Option (List (List ℕ))
both none b = none
both (some a) none = none
both (some (blocks, r)) (some (blocks', r')) = some (blocks ++ blocks')

-- `while (argc>0)`
pub run_args : (List ℕ → Option (List (List ℕ) × Bool)) → ℕ → Args → Option (List (List ℕ) × Bool)
unfolding find_arg
run_args f zero stack = some ([], true)
run_args f (suc argc) stack = elim (find_arg argc stack) [
  | none ↦ none
  | some bytes ↦ elim (both (f bytes) (run_args f argc stack)) [
    | none ↦ none
    | some blocks ↦ some (blocks, true)
  ]
]

-- `while (ptr<end && *ptr!=sSTARTREORDER)`: the strings up to the next bracket, and what is behind.
pub plain_block : Bool → List ℕ → List ℕ × List ℕ
plain_block string [] = ([], [])
plain_block string (c ∷ t) =
    let (block, rest) = plain_block (not (c == 0)) t in
    if not string && (c == start_reorder) then ([], c ∷ t) else (c ∷ block, rest)

-- `stgstring`: the blocks, and `reordered`.
pub stgstring : ℕ → List ℕ → Option (List (List ℕ) × Bool)
unfolding scan_args arg_count run_args plain_block
stgstring zero text = none
stgstring (suc fuel) [] = some ([], false)
stgstring (suc fuel) (c ∷ t) =
    if c == start_reorder
    then elim (scan_args false 1 none [] t) [
      | none ↦ none
      | some (stack, rest) ↦
          elim (both (run_args (stgstring fuel) (arg_count stack) stack) (stgstring fuel rest)) [
            | none ↦ none
            | some blocks ↦ some (blocks, true)
          ]
    ]
    else elim (stgstring fuel (plain_block false (c ∷ t)).1) [
      | none ↦ none
      | some (blocks, reordered) ↦ some ((plain_block false (c ∷ t)).0 ∷ blocks, reordered)
    ]

-- `rebuffer`, with the part of `stgpipe` up to `pipeidx`.
abbrev pub rebuffer : List ℕ → List ℕ → List ℕ
rebuffer pipe str =
    let i = (if joins pipe (length pipe) then length pipe - 1 else length pipe) in
    take i pipe ++ (str ++ 0 ∷ [])

abbrev pub rebuffer_all : List ℕ → List (List ℕ) → List ℕ
rebuffer_all pipe [] = pipe
rebuffer_all pipe (str ∷ strs) = rebuffer_all (rebuffer pipe str) strs

-- `stgopt(start,ptr,rebuffer)` on block after block: the pipe, and what is taken from `code_idx`.
pub optimize_blocks : Optimization → Bool → List (List ℕ) → List ℕ → Option (List ℕ × ℕ)
unfolding stgopt
optimize_blocks level emitting [] pipe = some (pipe, 0)
optimize_blocks level emitting (block ∷ blocks) pipe =
    elim (stgopt level stat_write emitting block) [
      | none ↦ none
      | some (strs, saved) ↦ elim (optimize_blocks level emitting blocks (rebuffer_all pipe strs)) [
        | none ↦ none
        | some (pipe', saved') ↦ some (pipe', saved + saved')
      ]
    ]

abbrev pub filewrite_all : List (List ℕ) → Stage → Stage
filewrite_all [] s = s
filewrite_all (str ∷ strs) s = filewrite_all strs (filewrite str s)

-- The second pass of `stgout`: what goes to the file, and what more is taken from `code_idx`.
abbrev pub second_output : Optimization → Bool → Bool → List ℕ → Option (List (List ℕ) × ℕ)
second_output level emitting reordered pipe =
    if reordered then stgopt level stat_write emitting pipe else some (strings_from [] pipe, 0)

-- `emit_stgbuf_idx`, `none` for -1, when `stgidx` is back at `index`.
abbrev pub emit_after : ℕ → Option ℕ → Option ℕ
emit_after index none = none
emit_after index (some e) = if leb index e then none else some e

abbrev pub is_emitting : Option ℕ → Bool
is_emitting none = false
is_emitting (some e) = true

-- Both passes over a text while the output is written: the lines for the file, and what is taken from
-- `code_idx`.
pub output_passes : Optimization → Bool → List ℕ → Option (List (List ℕ) × ℕ)
unfolding stgstring optimize_blocks stgopt
output_passes level emitting text = elim (stgstring (suc (length text)) text) [
  | none ↦ none
  | some (blocks, reordered) ↦ elim (optimize_blocks level emitting blocks []) [
    | none ↦ none
    | some (pipe, saved) ↦ elim (second_output level emitting reordered pipe) [
      | none ↦ none
      | some (lines, saved') ↦ some (lines, saved + saved')
    ]
  ]
]

-- `stgout`, with `emit_stgbuf_idx` before and behind it.
pub stgout : Optimization → ℕ → Option ℕ → Stage → Option (Stage × Option ℕ)
unfolding output_passes
stgout level index emit s =
    let s' = record s { stgidx = index; stglen = s.stgidx - index } in
    let text = drop index (take (s.stgidx) (s.stgbuf)) in
    if not (s.staging)
    then some (s, emit)
    else if s.writing
    then elim (output_passes level (is_emitting emit) text) [
      | none ↦ none
      | some (lines, saved) ↦
          some (
            filewrite_all lines (record s' { code_idx = s.code_idx - saved }),
            emit_after index emit,
          )
    ]
    else some (s', emit_after index emit)
