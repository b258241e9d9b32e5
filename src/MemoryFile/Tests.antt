-- ===== src/MemoryFile/Tests.antt =====
-- Memory files at concrete texts.
use pawn_x.Prelude.{ℕ, ◌≡◌, refl, arith, true, List, [], ◌∷◌, some, All}
use pawn_x.Prelude.Chars.{codes}
use pawn_x.MemoryFile.{
  MemFile, mfcreate, slice, put, memfile_read, copied_in, memfile_write, seek_set, mfseek,
  newline_at, mfgets, mfputs, up_to_zero,
}
use pawn_x.MemoryFile.Lines.{is_line}
use pawn_x.MemoryFile.Roundtrip.{puts_all, gets_all, mfgets-mfputs}

abbrev lines : List (List ℕ)
lines = codes "\thalt 0\n" ∷ codes "\n" ∷ codes "l.1\n" ∷ []

abbrev file : MemFile
file = copied_in (codes "l.1\n") (copied_in (codes "\n") (copied_in (codes "\thalt 0\n") mfcreate))

-- A line that does not fit is given in parts.
in_parts :
    (mfgets 5 (mfseek 0 0 seek_set (copied_in (codes "\thalt 0\n") mfcreate)).1).0
    ≡ some (codes "\thal")
unfolding mfgets memfile_read mfseek slice put newline_at up_to_zero
in_parts = refl

each_ended : All (λ l. is_line l ≡ true) lines
unfolding is_line
each_ended = (refl, (refl, (refl, tt)))

lines_put : puts_all (λ n. true) lines mfcreate ≡ some file
unfolding puts_all mfputs memfile_write
lines_put = refl

mfgets-mfputs_example : gets_all 4 256 (mfseek 0 0 seek_set file).1 ≡ lines
mfgets-mfputs_example =
    mfgets-mfputs (λ n. true) lines 256 file each_ended
      (omega arith, (omega arith, (omega arith, tt))) lines_put
