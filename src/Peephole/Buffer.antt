-- ===== src/Peephole/Buffer.antt =====
-- The buffer of `replacesequence` (sc7.c).
use pawn_x.Prelude.{◌+◌, ◌≡◌, refl, arith, Bool, true, false, List, [], ◌∷◌, length, length-append}
use pawn_x.Prelude.Chars.{codes}
use pawn_x.Peephole.{
  Item, symbol, negative, blank, line, char, plain, scan, Symbols, repl_length, write_items,
  replacesequence,
}
use pawn_x.Peephole.Table.{Sequence}

-- The last item, and no other, is the end of the last line, and there is no number.
unfoldable pub ends_line : List Item → Bool
ends_line [] = false
ends_line (symbol k ∷ is) = ends_line is
ends_line (negative ds ∷ is) = false
ends_line (blank ∷ is) = ends_line is
ends_line (line true ∷ is) = ends_line is
ends_line (line false ∷ []) = true
ends_line (line false ∷ i ∷ is) = false
ends_line (char c ∷ is) = ends_line is

unfoldable pub fills : Sequence → Bool
unfolding ends_line scan
fills q = ends_line (scan false plain (codes q.replace))

repl_length_lem :
    (is : List Item) (s : Symbols)
    → ends_line is ≡ true
    → 1 + length (write_items is s) ≡ repl_length is s
unfolding ends_line repl_length write_items
repl_length_lem [] s e = absurd (cc e)
repl_length_lem (symbol k ∷ is) s e =
    omega (arith, repl_length_lem is s e, length-append (s k) (write_items is s))
repl_length_lem (negative ds ∷ is) s e = absurd (cc e)
repl_length_lem (blank ∷ is) s e = omega (arith, repl_length_lem is s e)
repl_length_lem (line true ∷ is) s e = omega (arith, repl_length_lem is s e)
repl_length_lem (line false ∷ []) s e = refl
repl_length_lem (line false ∷ i ∷ is) s e = absurd (cc e)
repl_length_lem (char c ∷ is) s e = omega (arith, repl_length_lem is s e)

-- What is written is what was allocated.
pub length-replacesequence :
    (q : Sequence) (s : Symbols)
    → fills q ≡ true
    → length (replacesequence q.replace s) ≡ repl_length (scan false plain (codes q.replace)) s
unfolding fills replacesequence
length-replacesequence q s e =
    omega (arith, repl_length_lem (scan false plain (codes q.replace)) s e)
