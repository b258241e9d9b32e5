-- ===== src/Compact/Tape.antt =====
-- The bytes and cells that `write_encoded` (sc6.c) and `expand` (amx.c) have in common, over the cells in
-- the order of `expand`, from the last back.
use mathlib.Core.List.{reverse, reverse_aux, reverse-append}
use mathlib.Core.Option.{some-injective}
use pawn_x.Prelude.{
  ℕ, zero, suc, ◌+◌, ◌-◌, ◌*◌, ◌%◌, ◌≤◌, ◌<◌, ◌≡◌, refl, ap, sym, ◌∙◌, arith, true, false, leb,
  ◌==◌, inl, inr, List, [], ◌∷◌, ◌++◌, some, length, length-append, All, Bool-cases,
}
use pawn_x.Cell.{modulus}
use pawn_x.Memory.{Memory, write}
use pawn_x.Memory.Laws.{write_far}
use pawn_x.MemoryFile.{slice}
use pawn_x.MemoryFile.Slices.{slice-append}
use pawn_x.Compact.{
  encode_cell, Out, cell_bytes, compact_margin, compacted, write_encoded, code_back, continues,
}
use pawn_x.Compact.ReadCell.{ends}

-- The compact bytes of the cells, from the last back.
unfoldable pub tape : List ℕ → List ℕ
tape [] = []
tape (c ∷ rs) = reverse (encode_cell c) ++ tape rs

-- The bytes of the cells.
unfoldable pub plain : List ℕ → List ℕ
plain [] = []
plain (c ∷ rs) = plain rs ++ cell_bytes c

-- The check of `write_encoded` passed for each cell.
unfoldable pub Small : List ℕ → Type 0
unfolding tape
Small [] = Unit
Small (c ∷ rs) = (length (tape (c ∷ rs)) < 4 * length (c ∷ rs) + (compact_margin - 2)) × Small rs

-- The memory with the cells stored at their places.
unfoldable pub stored_all : List ℕ → Memory → Memory
stored_all [] code = code
stored_all (c ∷ rs) code = stored_all rs (write code (4 * length rs) c)

pub continues-tape : (rs : List ℕ) → All (λ c. c < modulus) rs → continues (tape rs) ≡ false
unfolding continues tape
continues-tape [] a = refl
continues-tape (c ∷ rs) (h, a) =
    let (bs, e) = ends c h in ap (λ w. continues (w ++ tape rs)) e ∙ ground arith

pub length-tape : (rs : List ℕ) → All (λ c. c < modulus) rs → length rs ≤ length (tape rs)
unfolding tape
length-tape [] a = omega arith
length-tape (c ∷ rs) (h, a) =
    let (bs, e) = ends c h in
    omega (arith, length-append (reverse (encode_cell c)) (tape rs), ap length e, length-tape rs a)

pub length-reverse_aux : (xs ys : List ℕ) → length (reverse_aux xs ys) ≡ length xs + length ys
length-reverse_aux [] ys = omega arith
length-reverse_aux (x ∷ xs) ys = omega (arith, length-reverse_aux xs (x ∷ ys))

pub All-reverse_aux :
    (P : ℕ → Type 0) (xs ys : List ℕ) → All P xs → All P ys → All P (reverse_aux xs ys)
All-reverse_aux P [] ys a b = b
All-reverse_aux P (x ∷ xs) ys (h, a) b = All-reverse_aux P xs (x ∷ ys) a (h, b)

pub stored_above :
    (rs : List ℕ) (code : Memory) (x : ℕ) → 4 * length rs ≤ x → stored_all rs code x ≡ code x
unfolding stored_all
stored_above [] code x h = refl
stored_above (c ∷ rs) code x h =
    stored_above rs (write code (4 * length rs) c) x (omega arith)
    ∙ write_far code (4 * length rs) c x (inr (omega arith))

four_bytes : (code : Memory) (a c : ℕ) → slice (write code a c) a 4 ≡ cell_bytes c
unfolding slice write
four_bytes code a c = ground arith

slice_same : (m m' : Memory) (a n : ℕ) → ((x : ℕ) → a ≤ x → m x ≡ m' x) → slice m a n ≡ slice m' a n
unfolding slice
slice_same m m' a zero h = refl
slice_same m m' a (suc n) h =
    rw (h a (omega arith))
      (ap (λ l. m' a ∷ l) (slice_same m m' (a + 1) n (λ x l. h x (omega arith))))

-- The cells that are stored are their bytes.
pub slice-stored_all :
    (rs : List ℕ) (code : Memory) → slice (stored_all rs code) 0 (4 * length rs) ≡ plain rs
unfolding stored_all plain slice
slice-stored_all [] code = refl
slice-stored_all (c ∷ rs) code =
    let n = 4 * length rs in
    let code' = write code n c in
    let size : 4 * length (c ∷ rs) ≡ n + 4 = omega arith in
    let high : slice (stored_all rs code') (0 + n) 4 ≡ cell_bytes c =
      ap (λ a. slice (stored_all rs code') a 4) (omega arith)
      ∙ slice_same (stored_all rs code') code' n 4 (λ x h. stored_above rs code' x h)
      ∙ four_bytes code n c in
    ap (slice (stored_all rs code') 0) size
    ∙ slice-append (stored_all rs code') 0 n 4
    ∙ ap (λ l. l ++ slice (stored_all rs code') (0 + n) 4) (slice-stored_all rs code')
    ∙ ap (λ l. plain rs ++ l) high

pub code_back-slice : (code : Memory) (n : ℕ) → code_back code n ≡ reverse (slice code 0 n)
unfolding code_back slice
code_back-slice code zero = refl
code_back-slice code (suc n) =
    let size : suc n ≡ n + 1 = omega arith in
    ap (λ l. code n ∷ l) (code_back-slice code n)
    ∙ sym (
        ap (λ k. reverse (slice code 0 k)) size
        ∙ ap reverse (slice-append code 0 n 1)
        ∙ reverse-append (slice code 0 n) (slice code (0 + n) 1)
        ∙ ap (λ a. code a ∷ reverse (slice code 0 n)) (omega arith))

-- What `write_encoded` with `sc_compress` has written when it returns.
pub write_encoded-tape :
    (cs rs : List ℕ) (out w : Out)
    → reverse out.bin ≡ tape rs
    → out.bytes_in ≡ 4 * length rs
    → out.bytes_out ≡ length (tape rs)
    → Small rs
    → write_encoded true cs out ≡ some w
    → (reverse w.bin ≡ tape (reverse_aux cs rs)) × Small (reverse_aux cs rs)
unfolding write_encoded tape Small
write_encoded-tape [] rs out w b i o s e =
    let same : out ≡ w = some-injective out w e in
    (ap (λ (x : Out). reverse x.bin) (sym same) ∙ b, s)
write_encoded-tape (c ∷ cs) rs out w b i o s e =
    let out' = compacted c out in
    let bytes : reverse out'.bin ≡ tape (c ∷ rs) =
      reverse-append out.bin (encode_cell c) ∙ ap (λ l. reverse (encode_cell c) ++ l) b in
    let count : out'.bytes_out ≡ length (tape (c ∷ rs)) = omega (
      arith,
      length-append (reverse (encode_cell c)) (tape rs),
      length-reverse_aux (encode_cell c) [],
      o,
    ) in
    elim (Bool-cases (leb (out'.bytes_in + (compact_margin - 2)) out'.bytes_out)) [
      | inl y ↦ absurd (cc (rw (write_encoded, y) at e))
      | inr f ↦
          let low : out'.bytes_out < out'.bytes_in + (compact_margin - 2) = ground arith in
          write_encoded-tape cs (c ∷ rs) out' w bytes (omega (arith, i)) count
            (omega (arith, low, count, i), s) (rw (write_encoded, f) at e)
    ]

length-plain : (rs : List ℕ) → length (plain rs) ≡ 4 * length rs
unfolding plain
length-plain [] = refl
length-plain (c ∷ rs) = omega (arith, length-append (plain rs) (cell_bytes c), length-plain rs)

-- What it writes without `sc_compress`.
pub write_encoded-plain :
    (cs rs : List ℕ) (out : Out)
    → out.bin ≡ plain rs
    → write_encoded false cs out ≡ some (record out { bin = plain (reverse_aux cs rs) })
unfolding write_encoded plain
write_encoded-plain [] rs out b = ap (λ l. some (record out { bin = l })) b
write_encoded-plain (c ∷ cs) rs out b =
    let aligned : (length out.bin % 4 == 0) ≡ true = ground (arith, ap length b, length-plain rs) in
    rw (write_encoded, aligned)
      (write_encoded-plain cs (c ∷ rs) (record out { bin = out.bin ++ cell_bytes c })
        (ap (λ l. l ++ cell_bytes c) b))

Small-tail : (cs rs : List ℕ) → Small (reverse_aux cs rs) → Small rs
unfolding Small
Small-tail [] rs s = s
Small-tail (c ∷ cs) rs s = (Small-tail cs (c ∷ rs) s).1

-- `write_encoded` with `sc_compress` returns if the check passes for each cell, counted from the start
-- of the file.
pub write_encoded_returns :
    (cs rs : List ℕ) (out : Out)
    → out.bytes_in ≡ 4 * length rs
    → out.bytes_out ≡ length (tape rs)
    → Small (reverse_aux cs rs)
    → (w : Out) × (write_encoded true cs out ≡ some w)
unfolding write_encoded tape Small
write_encoded_returns [] rs out i o s = (out, refl)
write_encoded_returns (c ∷ cs) rs out i o s =
    let out' = compacted c out in
    let count : out'.bytes_out ≡ length (tape (c ∷ rs)) = omega (
      arith,
      length-append (reverse (encode_cell c)) (tape rs),
      length-reverse_aux (encode_cell c) [],
      o,
    ) in
    let here = (Small-tail cs (c ∷ rs) s).0 in
    let low : leb (out'.bytes_in + (compact_margin - 2)) out'.bytes_out ≡ false =
      ground (arith, here, count, i) in
    let (w, e) = write_encoded_returns cs (c ∷ rs) out' (omega (arith, i)) count s in
    (w, rw (write_encoded, low) e)
