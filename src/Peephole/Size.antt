-- ===== src/Peephole/Size.antt =====
-- The bytes of code that a text in the staging buffer stands for (`code_idx`, `seqsize` and
-- `opcodes`/`opargs` of the compiler): a cell for each word that is not in a comment.
pub mod Found
pub mod Items
pub mod Written
pub mod Saved
pub mod Passes
use pawn_x.Prelude.{ℕ, ◌+◌, Bool, true, false, ◌&&◌, ◌||◌, ◌==◌, not, if◌then◌else◌, List, [], ◌∷◌}
use pawn_x.Prelude.Chars.{codes}
use pawn_x.Peephole.{Item, symbol, negative, blank, line, char, plain, scan, is_blank, in_symbol}
use pawn_x.Peephole.Table.{Sequence}

-- Where the last byte stands.
pub data Place : Type 0 where
  gap word comment : Place

abbrev pub in_word : Place → Place
in_word comment = comment
in_word gap = word
in_word word = word

abbrev pub in_gap : Place → Place
in_gap comment = comment
in_gap gap = gap
in_gap word = gap

abbrev pub in_comment : Place → Place
in_comment p = comment

-- The place of a byte, behind one at a place.
abbrev pub place : Place → ℕ → Place
place p c =
    if c == 10
    then gap
    else if c == b';'
    then comment
    else if is_blank c || (c == 0)
    then in_gap p
    else in_word p

-- A word begins.
abbrev pub entered : Place → Place → ℕ
entered gap word = 4
entered p q = 0

unfoldable pub text_size : Place → List ℕ → ℕ
text_size p [] = 0
text_size p (c ∷ t) = let q = place p c in entered p q + text_size q t

-- The same for a template.
abbrev pub item_place : Place → Item → Place
item_place p (symbol k) = in_word p
item_place p (negative ds) = in_word p
item_place p blank = in_gap p
item_place p (line more) = gap
item_place p (char c) = place p c

unfoldable pub template_size : Place → List Item → ℕ
template_size p [] = 0
template_size p (i ∷ is) = let q = item_place p i in entered p q + template_size q is

unfoldable pub template_end : Place → List Item → Place
template_end p [] = p
template_end p (i ∷ is) = template_end (item_place p i) is

unfoldable pub all_in_symbol : List ℕ → Bool
all_in_symbol [] = true
all_in_symbol (c ∷ cs) = in_symbol c && all_in_symbol cs

abbrev pub is_word : List ℕ → Bool
is_word [] = false
is_word (c ∷ cs) = in_symbol c && all_in_symbol cs

-- The numbers of a template are words, and there is no zero byte.
abbrev pub is_written : Item → Bool
is_written (negative ds) = is_word ds
is_written (char c) = not (c == 0)
is_written i = true

abbrev pub is_gap : Place → Bool
is_gap gap = true
is_gap word = false
is_gap comment = false

-- A zero byte stands behind a line or a blank.
abbrev pub closes : Place → ℕ → Bool
closes p c = if c == 0 then is_gap p else true

-- Each string of a text, and so the text, ends behind a line or a blank.
unfoldable pub is_closed : Place → List ℕ → Bool
is_closed p [] = is_gap p
is_closed p (c ∷ t) = closes p c && is_closed (place p c) t

unfoldable pub all_written : List Item → Bool
unfolding all_in_symbol
all_written [] = true
all_written (i ∷ is) = is_written i && all_written is

-- `savesize` is what a sequence saves, and both of its templates are whole lines.
unfoldable pub saves : Sequence → Bool
unfolding template_size template_end all_written scan
saves q =
    let found = scan true plain (codes q.find) in
    let written = scan false plain (codes q.replace) in
    (template_size gap found == template_size gap written + q.savesize)
    && ((is_gap (template_end gap found) && is_gap (template_end gap written))
        && (all_written found && all_written written))
