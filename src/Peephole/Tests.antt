-- ===== src/Peephole/Tests.antt =====
-- The peephole optimiser at a concrete text.
use Prim.Native.String.{String}
use pawn_x.Prelude.{
  ℕ, ◌≡◌, ◌≤◌, ◌<◌, ◌+◌, ◌-◌, refl, true, false, List, [], ◌∷◌, ◌++◌, some, length, get_elem?, take,
  map, All, arith,
}
use pawn_x.Prelude.Chars.{codes, itoh, itoh_from}
use pawn_x.Peephole.{
  Symbols, bind, unbound, plain, scan, skip_blanks, skip_line, skip_comment, take_symbol, same_text,
  bind_symbol, match_text, match_end, match_item, match_items, matchsequence, repl_length,
  write_items, replacesequence, strreplace,
}
use pawn_x.Peephole.Table.{Sequence, seqsize}
use pawn_x.Peephole.Table.Loads.{loads}
use pawn_x.Peephole.Table.Chains.{chains}
use pawn_x.Peephole.Table.Entries.{entries}
use pawn_x.Peephole.Table.Arrays.{arrays}
use pawn_x.Peephole.Table.Moves.{moves}
use pawn_x.Peephole.Table.Pushes.{pushes}
use pawn_x.Peephole.Table.Constants.{constants}
use pawn_x.Peephole.Table.Jumps.{jumps}
use pawn_x.Peephole.Table.Counting.{counting}
use pawn_x.Peephole.Table.Natives.{natives}
use pawn_x.Peephole.Table.Macros.{macros}
use pawn_x.Peephole.Rules.{sequences, tried}
use pawn_x.Peephole.Optimise.{
  Staged, optimize_nomacro, stat_write, rewrite_first, rewrite_start, next_string, optimize_pass,
  optimize, strings_from, stgopt,
}
use pawn_x.Peephole.Optimise.Settle.{replaced, IsSettled}
use pawn_x.Peephole.Size.{gap, text_size, is_closed}
use pawn_x.Peephole.Sound.{tried-replaced}
use pawn_x.Peephole.Stage.{
  Stage, joins, stgwrite, stgget, stgdel, Piece, string_piece, mark_piece, code_piece, send_all,
}
use pawn_x.Peephole.Stage.Undone.{stgdel-stgget}
use pawn_x.Peephole.Stage.Filled.{is_string, stgwrite-is_closed}
use pawn_x.Peephole.Output.{strings_size, stgopt-IsSettled, stgopt-strings_size}

abbrev line_of : String → List ℕ
line_of s = 9 ∷ (codes s ++ (10 ∷ 0 ∷ []))

-- Two locals in both registers, and a comment.
abbrev text : List ℕ
text =
    line_of "load.s.pri 8"
    ++ (line_of "push.pri" ++ (line_of "load.s.pri c ; b" ++ (line_of "pop.alt" ++ line_of "add")))

abbrev written : List (List ℕ)
written =
    (9 ∷ (codes "load.s.pri c" ++ (10 ∷ [])))
    ∷ (9 ∷ (codes "load.s.alt 8" ++ (10 ∷ [])))
    ∷ (9 ∷ (codes "add" ++ (10 ∷ [])))
    ∷ []

optimised : stgopt optimize_nomacro stat_write false text ≡ some (written, 8)
unfolding stgopt optimize optimize_pass rewrite_start rewrite_first next_string strings_from
    matchsequence replacesequence strreplace match_items match_item match_end match_text bind_symbol
    same_text take_symbol skip_comment skip_line skip_blanks scan write_items itoh itoh_from tried
    sequences loads chains entries arrays moves pushes constants jumps counting natives macros
optimised = refl

text-closed : is_closed gap text ≡ true
unfolding is_closed
text-closed = refl

stgopt-strings_size_example : text_size gap text ≡ 8 + strings_size written
stgopt-strings_size_example =
    stgopt-strings_size optimize_nomacro stat_write false text written 8 text-closed optimised

stgopt-IsSettled_example :
    (r : Staged) × ((stgopt optimize_nomacro stat_write false text
        ≡ some (strings_from [] (r.text), r.saved))
      × ((length (r.text) ≤ length text) × IsSettled (tried true sequences) (r.text)))
stgopt-IsSettled_example = stgopt-IsSettled optimize_nomacro (tried true sequences) text refl

-- The first sequence of the table.
abbrev first : Sequence
first = record {
  find = "load.s.pri %1!push.pri!load.s.pri %2!pop.alt!";
  replace = "load.s.pri %2!load.s.alt %1!";
  savesize = seqsize 4 2 - seqsize 2 2;
}

abbrev operands_of : Symbols
operands_of = bind (bind unbound 0 (codes "8")) 1 (codes "c")

first-tried : get_elem? (tried true sequences) 0 ≡ some first
unfolding tried sequences loads
first-tried = refl

first-matches : matchsequence text (first.find) ≡ some (line_of "add", operands_of)
unfolding matchsequence match_items match_item match_end match_text bind_symbol same_text
    take_symbol skip_comment skip_line skip_blanks scan itoh itoh_from
first-matches = refl

tried-replaced_example :
    (length (replacesequence (first.replace) operands_of)
      ≡ repl_length (scan false plain (codes (first.replace))) operands_of)
    × ((length (replacesequence (first.replace) operands_of) < length text - length (line_of "add"))
        × ((replaced text first (line_of "add") operands_of
              ≡ replacesequence (first.replace) operands_of ++ line_of "add")
            × (text_size gap text
                ≡ 8 + text_size gap (replaced text first (line_of "add") operands_of))))
tried-replaced_example =
    tried-replaced true 0 first text (line_of "add") operands_of first-tried first-matches

abbrev empty_stage : Stage
empty_stage = record {
  stgbuf = 0 ∷ [];
  stgidx = 0;
  stglen = 0;
  staging = true;
  code_idx = 40;
  writing = true;
  outf = [];
}

-- A line in two strings, and a line in one.
abbrev sent : List (List ℕ)
sent = codes "load.pri " ∷ (codes "8" ++ 10 ∷ []) ∷ (codes "add" ++ 10 ∷ []) ∷ []

sent_all :
    take
      ((send_all (map string_piece sent) empty_stage).stgidx)
      ((send_all (map string_piece sent) empty_stage).stgbuf)
    ≡ codes "load.pri 8" ++ (10 ∷ 0 ∷ (codes "add" ++ (10 ∷ 0 ∷ [])))
unfolding send_all stgwrite
sent_all = refl

sent-is_string : All (λ str. is_string str ≡ true) sent
unfolding is_string
sent-is_string = (refl, (refl, (refl, tt)))

sent-joins :
    joins
      ((send_all (map string_piece sent) empty_stage).stgbuf)
      ((send_all (map string_piece sent) empty_stage).stgidx)
    ≡ false
unfolding send_all stgwrite
sent-joins = refl

stgwrite-is_closed_example :
    is_closed gap (
      take
        ((send_all (map string_piece sent) empty_stage).stgidx)
        ((send_all (map string_piece sent) empty_stage).stgbuf))
    ≡ true
stgwrite-is_closed_example = stgwrite-is_closed empty_stage sent refl refl sent-is_string sent-joins

-- A call that is staged and then scrapped.
abbrev staged : Stage
staged = send_all (map string_piece sent) empty_stage

abbrev scrapped : List Piece
scrapped = mark_piece 1 ∷ string_piece (codes "push.pri" ++ 10 ∷ []) ∷ code_piece 4 ∷ []

staged_index : stgget staged ≡ some (17, 40)
unfolding stgget send_all stgwrite
staged_index = refl

staged_inside : staged.stgidx ≤ length (staged.stgbuf)
unfolding send_all stgwrite
staged_inside = omega arith

stgdel-stgget_example :
    (take 17 ((stgdel 17 40 (send_all scrapped staged)).stgbuf)
      ≡ take (staged.stgidx) (staged.stgbuf))
    × (((stgdel 17 40 (send_all scrapped staged)).stgidx ≡ staged.stgidx)
        × ((stgdel 17 40 (send_all scrapped staged)).code_idx ≡ staged.code_idx))
stgdel-stgget_example = stgdel-stgget staged 17 40 scrapped staged_index staged_inside sent-joins
