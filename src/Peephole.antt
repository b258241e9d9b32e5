-- ===== src/Peephole.antt =====
-- The peephole optimiser of compiler/source/compiler/sc7.c: `matchsequence`, `replacesequence`,
-- `strreplace` and `stgopt`. The part of the staging buffer from `start` to `end` is the list of its
-- bytes, in lines that end with a newline and a zero byte. An assertion that fails is a failed match
-- here, and a symbol may have any length.
pub mod Table
pub mod Rules
pub mod Match
pub mod Shrink
pub mod Size
pub mod Optimise
pub mod Buffer
pub mod Sound
pub mod Output
pub mod Stage
pub mod Reorder
mod Tests
use pawn_x.Prelude.{
  ℕ, ◌+◌, ◌-◌, ◌*◌, Bool, true, false, ◌&&◌, ◌||◌, leb, ◌==◌, if◌then◌else◌, List, [], ◌∷◌, ◌++◌,
  Option, none, some, length, drop,
}
use Prim.Native.String.{String}
use pawn_x.Prelude.Chars.{codes, to_lower, alphanum, is_hex, hex_digit, itoh}
use pawn_x.Cell.{neg}

-- What a character of a template stands for, as the `switch (*pattern)` of both functions reads it: a
-- symbol `%1` to `%5` from 0 up, the hexadecimal text that `itoh` gives for a negative number,
-- a blank, the end of a line with whether more of the template follows, or itself.
pub data Item : Type 0 where
  symbol : ℕ → Item
  negative : List ℕ → Item
  blank : Item
  line : Bool → Item
  char : ℕ → Item

-- Behind `%` stands a digit, behind `-` the digits that `strtol` reads.
pub data Mode : Type 0 where
  plain percent : Mode
  minus : ℕ → Mode

abbrev pub is_more : List ℕ → Bool
is_more [] = false
is_more (c ∷ cs) = true

-- The item for a character, if it is one by itself, in front of those that follow.
abbrev pub emit : Bool → ℕ → Bool → List Item → List Item
emit find c more items =
    if c == b'%'
    then items
    else if find && (c == b'-')
    then items
    else if c == b' '
    then blank ∷ items
    else if c == b'!'
    then line more ∷ items
    else char c ∷ items

abbrev pub mode_of : Bool → ℕ → Mode
mode_of find c = if c == b'%' then percent else if find && (c == b'-') then minus 0 else plain

-- A template in items. `-` is a number in the template to find, and a character in the other.
unfoldable pub scan : Bool → Mode → List ℕ → List Item
scan find (minus v) [] = negative (itoh (neg v)) ∷ []
scan find plain [] = []
scan find percent [] = []
scan find plain (c ∷ cs) = emit find c (is_more cs) (scan find (mode_of find c) cs)
scan find percent (c ∷ cs) = symbol (c - b'1') ∷ scan find plain cs
scan find (minus v) (c ∷ cs) =
    let mode = (if is_hex c then minus (v * 16 + hex_digit c) else mode_of find c) in
    let rest = scan find mode cs in
    if is_hex c then rest else negative (itoh (neg v)) ∷ emit find c (is_more cs) rest

-- `symbols`, of which those that are not bound are empty.
abbrev pub Symbols : Type 0
Symbols = ℕ → List ℕ

abbrev pub bind : Symbols → ℕ → List ℕ → Symbols
bind s k str j = if j == k then str else s j

-- `*start=='\t' || *start==' '`
abbrev pub is_blank : ℕ → Bool
is_blank c = (c == 9) || (c == 32)

unfoldable pub skip_blanks : List ℕ → List ℕ
skip_blanks [] = []
skip_blanks (c ∷ t) = let rest = skip_blanks t in if is_blank c then rest else c ∷ t

-- `while (start<end && *start!='\n') start++;`
pub skip_line : List ℕ → List ℕ
skip_line [] = []
skip_line (c ∷ t) = let rest = skip_line t in if c == 10 then c ∷ t else rest

-- `if (*start==';')` skip the trailing comment.
pub skip_comment : List ℕ → List ℕ
unfolding skip_line
skip_comment [] = []
skip_comment (c ∷ t) = if c == b';' then skip_line t else c ∷ t

abbrev pub in_symbol : ℕ → Bool
in_symbol c = (c == b'-') || ((c == b'+') || alphanum c)

-- The characters of a symbol, and the text behind them.
pub take_symbol : List ℕ → List ℕ × List ℕ
take_symbol [] = ([], [])
take_symbol (c ∷ t) =
    let (str, rest) = take_symbol t in if in_symbol c then (c ∷ str, rest) else ([], c ∷ t)

-- `strcmp(a,b)==0`
pub same_text : List ℕ → List ℕ → Bool
same_text [] [] = true
same_text [] (d ∷ b) = false
same_text (c ∷ a) [] = false
same_text (c ∷ a) (d ∷ b) = (c == d) && same_text a b

-- A symbol that is bound must be the same, and another is bound.
pub bind_symbol : ℕ → List ℕ × List ℕ → Symbols → Option (List ℕ × Symbols)
unfolding same_text
bind_symbol k (str, rest) s = elim (s k) [
  | [] ↦ some (rest, bind s k str)
  | c ∷ old ↦ if same_text (c ∷ old) str then some (rest, s) else none
]

-- The comparison with the text of a number.
pub match_text : List ℕ → List ℕ → Option (List ℕ)
match_text [] t = some t
match_text (d ∷ ds) [] = none
match_text (d ∷ ds) (c ∷ t) =
    let rest = match_text ds t in if to_lower c == to_lower d then rest else none

-- The newline and the zero byte, and the white space of the next instruction.
pub match_end : Bool → List ℕ → Option (List ℕ)
unfolding skip_blanks
match_end more (c ∷ z ∷ t) =
    if (c == 10) && (z == 0) then some (if more then skip_blanks t else t) else none
match_end more (c ∷ []) = none
match_end more [] = none

abbrev pub with_symbols : Symbols → Option (List ℕ) → Option (List ℕ × Symbols)
with_symbols s none = none
with_symbols s (some t) = some (t, s)

-- One item against the text, which is not at its end.
pub match_item : Item → List ℕ → Symbols → Option (List ℕ × Symbols)
unfolding skip_blanks skip_comment take_symbol bind_symbol match_text match_end
match_item i [] s = none
match_item (symbol k) (c ∷ t) s =
    if (c == b'-') || alphanum c then bind_symbol k (take_symbol (c ∷ t)) s else none
match_item (negative ds) (c ∷ t) s = with_symbols s (match_text ds (c ∷ t))
match_item blank (c ∷ t) s = if is_blank c then some (skip_blanks t, s) else none
match_item (line more) (c ∷ t) s =
    with_symbols s (match_end more (skip_comment (skip_blanks (c ∷ t))))
match_item (char d) (c ∷ t) s = if to_lower c == to_lower d then some (t, s) else none

pub match_items : List Item → List ℕ → Symbols → Option (List ℕ × Symbols)
unfolding match_item
match_items [] t s = some (t, s)
match_items (i ∷ is) t s = elim (match_item i t s) [
  | none ↦ none
  | some (t', s') ↦ match_items is t' s'
]

abbrev pub unbound : Symbols
unbound k = []

-- `matchsequence`: the text behind the match and the symbols. `*match_length` is what is gone.
pub matchsequence : List ℕ → String → Option (List ℕ × Symbols)
unfolding match_items scan skip_blanks
matchsequence text pattern =
    match_items (scan true plain (codes pattern)) (skip_blanks text) unbound

-- The first loop of `replacesequence`: `*repl_length`.
pub repl_length : List Item → Symbols → ℕ
repl_length [] s = 0
repl_length (symbol k ∷ is) s = length (s k) + repl_length is s
repl_length (line more ∷ is) s = 3 + repl_length is s
repl_length (negative ds ∷ is) s = 1 + repl_length is s
repl_length (blank ∷ is) s = 1 + repl_length is s
repl_length (char c ∷ is) s = 1 + repl_length is s

-- Its second loop: what is written behind the first tab.
pub write_items : List Item → Symbols → List ℕ
write_items [] s = []
write_items (symbol k ∷ is) s = s k ++ write_items is s
write_items (line more ∷ is) s =
    let rest = write_items is s in if more then 10 ∷ 0 ∷ 9 ∷ rest else 10 ∷ 0 ∷ rest
write_items (negative ds ∷ is) s = ds ++ write_items is s
write_items (blank ∷ is) s = 32 ∷ write_items is s
write_items (char c ∷ is) s = c ∷ write_items is s

-- `replacesequence`
pub replacesequence : String → Symbols → List ℕ
unfolding write_items scan
replacesequence pattern s = 9 ∷ write_items (scan false plain (codes pattern)) s

-- `strreplace` on the text from `dest` on, `sub_length` bytes of which are replaced. A section that
-- is deleted moves the rest down, one that is inserted moves it up, and the new bytes go over it.
pub strreplace : List ℕ → List ℕ → ℕ → List ℕ
strreplace dest replace sub_length =
    if leb (length replace) sub_length
    then replace ++ drop (length replace) (drop (sub_length - length replace) dest)
    else replace ++ drop sub_length dest
