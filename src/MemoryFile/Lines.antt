-- ===== src/MemoryFile/Lines.antt =====
-- Lines that are written to a memory file by `mfputs` and read back by `mfgets` (scmemfil.c).
use pawn_x.Prelude.{
  ℕ, zero, suc, ◌+◌, ◌-◌, ◌≤◌, ◌<◌, ◌≡◌, refl, ap, sym, ◌∙◌, arith, Bool, true, false, ◌&&◌, not,
  ltb, ltb→lt, leb, ◌==◌, if◌then◌else◌, inl, inr, List, [], ◌∷◌, ◌++◌, some, length, length-append,
  take, take-append, and_lem, Bool-cases, equal_lem,
}
use pawn_x.MemoryFile.{
  MemFile, slice, read_size, memfile_read, seek_cur, mfseek, newline_at, cut_string, cut_line,
  mfgets,
}
use pawn_x.MemoryFile.Slices.{length-slice, take-slice}

abbrev is_nil : List ℕ → Bool
is_nil [] = true
is_nil (c ∷ s) = false

-- A line: one newline, at its end, and no zero byte.
unfoldable pub is_line : List ℕ → Bool
is_line [] = false
is_line (c ∷ s) = if c == 10 then is_nil s else not (c == 0) && is_line s

-- What is not read yet.
abbrev pub unread : MemFile → List ℕ
unread mf = slice mf.base mf.offs (mf.usedoffs - mf.offs)

-- The position is in the file, and the file in what is allocated.
unfoldable pub IsValid : MemFile → Type 0
IsValid mf = (mf.offs ≤ mf.usedoffs) × (mf.usedoffs ≤ mf.size)

is_nil_lem : (s : List ℕ) → is_nil s ≡ true → s ≡ []
is_nil_lem [] e = refl
is_nil_lem (c ∷ s) e = absurd (cc e)

newline_at-is_line :
    (l rest : List ℕ)
    → is_line l ≡ true
    → (p : ℕ) × ((newline_at (l ++ rest) ≡ some p) × (p + 1 ≡ length l))
unfolding newline_at is_line
newline_at-is_line [] rest e = absurd (cc e)
newline_at-is_line (c ∷ s) rest e = elim (Bool-cases (c == 10)) [
  | inl y ↦
      let other : (c == 0) ≡ false = ground arith in
      let alone = is_nil_lem s (rw (is_line, y) at e) in
      let size : length s ≡ 0 = ap length alone in
      (0, (rw (newline_at, other, y) refl, omega (arith, size)))
  | inr f ↦
      let (n, e') = and_lem (not (c == 0)) (is_line s) (rw (is_line, f) at e) in
      let other : (c == 0) ≡ false = ground arith in
      let (p, (q, size)) = newline_at-is_line s rest e' in
      (suc p, (rw (newline_at, other, f, q) refl, omega (arith, size)))
]

-- A part that has the line in front.
take_line : (l more : List ℕ) (k : ℕ) → length l ≤ k → (r : List ℕ) × (take k (l ++ more) ≡ l ++ r)
take_line [] more k h = (take k more, refl)
take_line (c ∷ l) more zero h = absurd (omega (arith, h))
take_line (c ∷ l) more (suc k) h =
    let (r, e) = take_line l more k (omega (arith, h)) in (r, ap (λ x. c ∷ x) e)

read_size_lem :
    (size m : ℕ) (mf : MemFile)
    → m ≤ mf.usedoffs - mf.offs
    → m ≤ size
    → (m ≤ read_size size mf)
      × ((read_size size mf ≤ mf.usedoffs - mf.offs) × (read_size size mf ≤ size))
read_size_lem size m mf a b = elim (Bool-cases (ltb (mf.usedoffs - mf.offs) size)) [
  | inl y ↦ rw y (a, (omega arith, omega (arith, ltb→lt (mf.usedoffs - mf.offs) size y)))
  | inr f ↦
      let enough : size ≤ mf.usedoffs - mf.offs = ground arith in rw f (b, (enough, omega arith))
]

not_zero : (n : ℕ) → 1 ≤ n → (n == 0) ≡ false
not_zero n h = ground arith

not_less : (a b : ℕ) → b ≤ a → ltb a b ≡ false
not_less a b h = ground arith

not_below : (a b : ℕ) → b < a → leb a b ≡ false
not_below a b h = ground arith

no_line : is_line [] ≡ true → ⊥
unfolding is_line
no_line e = cc e

string_front :
    (size : ℕ) (l r : List ℕ) (n : ℕ)
    → length l ≤ n
    → n ≤ size
    → length l < size
    → (q : List ℕ) × ((if ltb n size then l ++ r else take (size - 1) (l ++ r)) ≡ l ++ q)
string_front size l r n a b h = elim (Bool-cases (ltb n size)) [
  | inl y ↦ (r, rw y refl)
  | inr f ↦ let (q, e) = take_line l r (size - 1) (omega (arith, h)) in (q, rw f e)
]

-- The seek that undoes what was read behind the line.
undo :
    (mf : MemFile) (n k : ℕ)
    → k ≤ n
    → 1 ≤ k
    → mf.offs + n ≤ mf.usedoffs
    → (if k == n
        then record mf { offs = mf.offs + n }
        else (mfseek 0 (n - k) seek_cur (record mf { offs = mf.offs + n })).1)
      ≡ record mf { offs = mf.offs + k }
unfolding mfseek
undo mf n k a b h = elim (Bool-cases (k == n)) [
  | inl y ↦ rw y (ap (λ i. record mf { offs = mf.offs + i }) (sym (equal_lem k n y)))
  | inr f ↦
      let some_bytes : (mf.usedoffs == 0) ≡ false = not_zero mf.usedoffs (omega (arith, a, b, h)) in
      let there : mf.offs + n + 0 - (n - k) ≡ mf.offs + k = omega (arith, a) in
      let inside : ltb mf.usedoffs (mf.offs + k) ≡ false =
        not_less mf.usedoffs (mf.offs + k) (omega (arith, a, h)) in
      rw (f, mfseek, some_bytes, there, inside) refl
]

-- A string with the line in front is cut behind it.
cut_string-is_line :
    (size : ℕ) (l q : List ℕ) (mf mf' : MemFile) (n : ℕ)
    → is_line l ≡ true
    → (if length l == n then mf else (mfseek 0 (n - length l) seek_cur mf).1) ≡ mf'
    → cut_string size n (l ++ q) mf ≡ (some l, mf')
cut_string-is_line size l q mf mf' n e back =
    let (p, (found, at_end)) = newline_at-is_line l q e in
    rw (cut_string, found)
      (ap (λ k. (some (take k (l ++ q)), (if k == n then mf else (mfseek 0 (n - k) seek_cur mf).1)))
          at_end
        ∙ ap (λ x. (some (take (length l) (l ++ q)), x)) back
        ∙ ap (λ x. (some x, mf')) (take-append l q))

-- Where a line without a zero byte, shorter than the buffer, stands at the position of a valid file,
-- `mfgets` gives it, and the position is behind it.
pub mfgets-is_line :
    (size : ℕ) (l more : List ℕ) (mf : MemFile)
    → is_line l ≡ true
    → length l < size
    → IsValid mf
    → unread mf ≡ l ++ more
    → mfgets size mf ≡ (some l, record mf { offs = mf.offs + length l })
unfolding mfgets memfile_read IsValid
mfgets-is_line size [] more mf e b v u = absurd (no_line e)
mfgets-is_line size (c ∷ s) more mf e b (inside, room) u =
    let l = c ∷ s in
    let left = mf.usedoffs - mf.offs in
    let whole : left ≡ length l + length more =
      sym (length-slice mf.base mf.offs left) ∙ ap length u ∙ length-append l more in
    let n = read_size size mf in
    let (low, (high, fits)) =
      read_size_lem size (length l) mf (omega (arith, whole)) (omega (arith, b)) in
    let (r, front) = take_line l more n low in
    let bytes : slice mf.base mf.offs n ≡ l ++ r =
      take-slice mf.base mf.offs n left high ∙ ap (take n) u ∙ front in
    let count : length (l ++ r) ≡ n = ap length (sym bytes) ∙ length-slice mf.base mf.offs n in
    let asked : (size == 0) ≡ false = not_zero size (omega (arith, b)) in
    let behind : leb mf.usedoffs mf.offs ≡ false =
      not_below mf.usedoffs mf.offs (omega (arith, whole)) in
    let read : memfile_read size mf ≡ (l ++ r, record mf { offs = mf.offs + n }) =
      rw (memfile_read, asked, behind) (ap (λ x. (x, record mf { offs = mf.offs + n })) bytes) in
    let back = undo mf n (length l) low (omega arith) (omega (arith, high, whole)) in
    let (q, string) = string_front size l r n low fits b in
    ap (cut_line size) read
    ∙ ap
        (λ k.
          cut_string size k (if ltb k size then l ++ r else take (size - 1) (l ++ r))
            (record mf { offs = mf.offs + n }))
        count
    ∙ ap (λ x. cut_string size n x (record mf { offs = mf.offs + n })) string
    ∙ cut_string-is_line size l q (record mf { offs = mf.offs + n })
        (record mf { offs = mf.offs + length l }) n e back
