-- ===== src/MemoryFile.antt =====
-- The memory files of compiler/source/compiler/memfile.c and scmemfil.c, in which the compiler keeps
-- the assembler file. `base` gives the byte at a position, with zeros where nothing is written yet.
-- Whether `realloc` succeeds for a size is a parameter, and the name of a file is left out.
pub mod Slices
pub mod Lines
pub mod Roundtrip
mod Tests
use pawn_x.Prelude.{
  ℕ, zero, suc, ◌+◌, ◌-◌, ◌*◌, Bool, true, false, ◌||◌, ltb, leb, ◌==◌, if◌then◌else◌, List, [],
  ◌∷◌, Option, none, some, length, take,
}

pub record MemFile : Type 0 where
  pub base : ℕ → ℕ
  pub offs : ℕ
  pub usedoffs : ℕ
  pub size : ℕ

-- `memfile_creat`, as `mfcreate` calls it.
abbrev pub mfcreate : MemFile
mfcreate = record { base = λ a. 0; offs = 0; usedoffs = 0; size = 4096 }

abbrev pub memfile_seek : ℕ → MemFile → MemFile
memfile_seek seek mf = record mf { offs = seek }

-- The bytes from a position on.
unfoldable pub slice : (ℕ → ℕ) → ℕ → ℕ → List ℕ
slice base a zero = []
slice base a (suc n) = base a ∷ slice base (a + 1) n

-- `memcpy(mf->base + mf->offs, buffer, size)`
unfoldable pub put : (ℕ → ℕ) → ℕ → List ℕ → ℕ → ℕ
put base a [] = base
put base a (b ∷ bs) = put (λ x. if x == a then b else base x) (a + 1) bs

-- `maxsize` of `memfile_read` when it copies.
abbrev pub read_size : ℕ → MemFile → ℕ
read_size maxsize mf =
    if ltb (mf.usedoffs - mf.offs) maxsize then mf.usedoffs - mf.offs else maxsize

-- `memfile_read`: the bytes that it gives.
unfoldable pub memfile_read : ℕ → MemFile → List ℕ × MemFile
unfolding slice
memfile_read maxsize mf = if (maxsize == 0) || leb mf.usedoffs mf.offs then ([], mf) else (
  slice mf.base mf.offs (read_size maxsize mf),
  record mf { offs = mf.offs + read_size maxsize mf },
)

-- The buffer behind the test of `memfile_write`; `none` if it cannot grow.
abbrev pub grown : (ℕ → Bool) → ℕ → MemFile → Option MemFile
grown realloc size mf =
    if ltb mf.size (mf.offs + size)
    then if realloc ((mf.size + size) * 2)
      then some (record mf { size = (mf.size + size) * 2 })
      else none
    else some mf

-- The end of `memfile_write`, behind the growing.
abbrev pub copied_in : List ℕ → MemFile → MemFile
copied_in buffer mf =
    let offs = mf.offs + length buffer in
    record mf {
      base = put mf.base mf.offs buffer;
      offs = offs;
      usedoffs = (if ltb mf.usedoffs offs then offs else mf.usedoffs);
    }

unfoldable pub memfile_write : (ℕ → Bool) → List ℕ → MemFile → Bool × MemFile
unfolding put
memfile_write realloc buffer mf = elim (grown realloc (length buffer) mf) [
  | none ↦ (false, mf)
  | some mf' ↦ (true, copied_in buffer mf')
]

pub data Whence : Type 0 where
  seek_set seek_cur seek_end : Whence

abbrev pub origin : Whence → MemFile → ℕ
origin seek_set mf = 0
origin seek_cur mf = mf.offs
origin seek_end mf = mf.usedoffs

-- `mfseek` by an offset that is `ahead` less `behind`: the new position.
unfoldable pub mfseek : ℕ → ℕ → Whence → MemFile → ℕ × MemFile
mfseek ahead behind whence mf =
    if mf.usedoffs == 0
    then (0, mf)
    else let offset = origin whence mf + ahead - behind in
      let clamped = (if ltb mf.usedoffs offset then mf.usedoffs else offset) in
      (clamped, memfile_seek clamped mf)

-- `strchr(string,'\n')` on what is in front of the zero byte.
unfoldable pub newline_at : List ℕ → Option ℕ
newline_at [] = none
newline_at (c ∷ s) =
    let rest = newline_at s in
    if c == 0
    then none
    else if c == 10
    then some 0
    else elim rest [ none ↦ none | some p ↦ some (suc p) ]

-- A string up to its zero byte.
unfoldable pub up_to_zero : List ℕ → List ℕ
up_to_zero [] = []
up_to_zero (c ∷ s) = let rest = up_to_zero s in if c == 0 then [] else c ∷ rest

-- `mfgets` on its buffer, with the number of bytes that were read: the string, and the seek that undoes
-- what was read too far.
abbrev pub cut_string : ℕ → ℕ → List ℕ → MemFile → Option (List ℕ) × MemFile
cut_string size count string mf = elim (newline_at string) [
  | some p ↦ (
    some (take (p + 1) string),
    (if p + 1 == count then mf else (mfseek 0 (count - (p + 1)) seek_cur mf).1),
  )
  | none ↦ (some (up_to_zero string), (if ltb count size then mf else (mfseek 0 1 seek_cur mf).1))
]

-- `mfgets` behind `mfread`.
abbrev pub cut_line : ℕ → List ℕ × MemFile → Option (List ℕ) × MemFile
cut_line size ([], mf) = (none, mf)
cut_line size (c ∷ s, mf) =
    let count = length (c ∷ s) in
    cut_string size count (if ltb count size then c ∷ s else take (size - 1) (c ∷ s)) mf

unfoldable pub mfgets : ℕ → MemFile → Option (List ℕ) × MemFile
unfolding memfile_read mfseek newline_at up_to_zero
mfgets size mf = cut_line size (memfile_read size mf)

-- `mfputs`, with whether all was written.
unfoldable pub mfputs : (ℕ → Bool) → List ℕ → MemFile → Bool × MemFile
unfolding memfile_write
mfputs realloc string mf = memfile_write realloc string mf
