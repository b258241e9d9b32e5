-- ===== src/MemoryFile/Roundtrip.antt =====
-- A text that is written to a memory file line by line, and read back (scmemfil.c).
use mathlib.Core.List.{append_assoc, append-nil}
use mathlib.Core.Path.{subst}
use mathlib.Core.Option.{some-injective}
use pawn_x.Prelude.{
  ℕ, zero, suc, ◌+◌, ◌-◌, ◌*◌, ◌≤◌, ◌<◌, ◌≡◌, refl, ap, sym, ◌∙◌, arith, Bool, true, false, ◌||◌,
  ltb, leb, ◌==◌, if◌then◌else◌, inl, inr, List, [], ◌∷◌, ◌++◌, Option, none, some, length,
  length-append, drop, drop-append, All, Bool-cases, equal_lem,
}
use pawn_x.MemoryFile.{
  MemFile, mfcreate, slice, put, memfile_read, copied_in, memfile_write, seek_set, mfseek, mfgets,
  mfputs,
}
use pawn_x.MemoryFile.Slices.{length-slice, slice-put_below, slice-put, slice-append}
use pawn_x.MemoryFile.Lines.{is_line, unread, IsValid, mfgets-is_line}

-- Lines that are written one after the other, as long as that succeeds.
unfoldable pub puts_all : (ℕ → Bool) → List (List ℕ) → MemFile → Option MemFile
puts_all realloc [] mf = some mf
puts_all realloc (l ∷ ls) mf =
    let rest = puts_all realloc ls (mfputs realloc l mf).1 in
    if (mfputs realloc l mf).0 then rest else none

abbrev pub behind_line : (MemFile → List (List ℕ)) → Option (List ℕ) × MemFile → List (List ℕ)
behind_line rest (none, mf) = []
behind_line rest (some l, mf) = l ∷ rest mf

-- Lines that are read until there is none, at most so many.
unfoldable pub gets_all : ℕ → ℕ → MemFile → List (List ℕ)
gets_all zero size mf = []
gets_all (suc n) size mf = behind_line (gets_all n size) (mfgets size mf)

unfoldable joined : List (List ℕ) → List ℕ
joined [] = []
joined (l ∷ ls) = l ++ joined ls

-- The position is at the end of a valid file.
AtEnd : MemFile → Type 0
AtEnd mf = (mf.offs ≡ mf.usedoffs) × (mf.usedoffs ≤ mf.size)

abbrev content : MemFile → List ℕ
content mf = slice mf.base 0 mf.usedoffs

-- What `copied_in` leaves of a file at its end.
copied_in_lem :
    (l : List ℕ) (mf : MemFile)
    → mf.offs ≡ mf.usedoffs
    → mf.usedoffs + length l ≤ mf.size
    → (content (copied_in l mf) ≡ content mf ++ l) × AtEnd (copied_in l mf)
unfolding AtEnd
copied_in_lem l mf e room =
    let end = mf.offs + length l in
    let used : (if ltb mf.usedoffs end then end else mf.usedoffs) ≡ mf.usedoffs + length l =
      elim (Bool-cases (ltb mf.usedoffs end)) [
        | inl y ↦ rw y (omega (arith, e))
        | inr f ↦ let short : end ≤ mf.usedoffs = ground arith in rw f (omega (arith, short, e))
      ] in
    let base' = put mf.base mf.offs l in
    let below : slice base' 0 mf.usedoffs ≡ slice mf.base 0 mf.usedoffs =
      slice-put_below l mf.base mf.offs 0 mf.usedoffs (omega (arith, e)) in
    let above : slice base' (0 + mf.usedoffs) (length l) ≡ l =
      ap (λ a. slice base' a (length l)) (omega (arith, e)) ∙ slice-put l mf.base mf.offs in
    (
      ap (slice base' 0) used
          ∙ slice-append base' 0 mf.usedoffs (length l)
          ∙ ap (λ x. x ++ slice base' (0 + mf.usedoffs) (length l)) below
          ∙ ap (λ x. slice mf.base 0 mf.usedoffs ++ x) above,
      (omega (arith, e, used), omega (arith, used, room)),
    )

AtWritten : List ℕ → MemFile → MemFile → Type 0
AtWritten l mf x = (content (copied_in l x) ≡ content mf ++ l) × AtEnd (copied_in l x)

-- `mfputs` at the end of a file puts the string behind what is there.
mfputs_lem :
    (realloc : ℕ → Bool) (l : List ℕ) (mf : MemFile)
    → AtEnd mf
    → (mfputs realloc l mf).0 ≡ true
    → (content (mfputs realloc l mf).1 ≡ content mf ++ l) × AtEnd (mfputs realloc l mf).1
unfolding mfputs memfile_write AtEnd AtWritten
mfputs_lem realloc l mf (e, room) ok =
    let done : (x : MemFile)
        → mfputs realloc l mf ≡ (true, copied_in l x)
        → AtWritten l mf x
        → (content (mfputs realloc l mf).1 ≡ content mf ++ l) × AtEnd (mfputs realloc l mf).1 =
      λ x w t.
        subst (λ (r : Bool × MemFile). (content r.1 ≡ content mf ++ l) × AtEnd r.1) (sym w) t in
    elim (Bool-cases (ltb mf.size (mf.offs + length l))) [
      | inr f ↦
          let enough : mf.offs + length l ≤ mf.size = ground arith in
          done mf (rw (mfputs, memfile_write, f) refl)
            (copied_in_lem l mf e (omega (arith, enough, e)))
      | inl y ↦ elim (Bool-cases (realloc ((mf.size + length l) * 2))) [
        | inl r ↦
            let mf' : MemFile = record mf { size = (mf.size + length l) * 2 } in
            done mf' (rw (mfputs, memfile_write, y, r) refl)
              (copied_in_lem l mf' e (omega (arith, room)))
        | inr n ↦ absurd (cc (rw (mfputs, memfile_write, y, n) at ok))
      ]
    ]

puts_all-content :
    (realloc : ℕ → Bool) (ls : List (List ℕ)) (mf mf' : MemFile)
    → AtEnd mf
    → puts_all realloc ls mf ≡ some mf'
    → (content mf' ≡ content mf ++ joined ls) × AtEnd mf'
unfolding puts_all joined
puts_all-content realloc [] mf mf' o e =
    subst (λ x. (content x ≡ content mf ++ []) × AtEnd x) (some-injective mf mf' e)
      (sym (append-nil (content mf)), o)
puts_all-content realloc (l ∷ ls) mf mf' o e = elim (Bool-cases (mfputs realloc l mf).0) [
  | inr f ↦ absurd (cc (rw (puts_all, f) at e))
  | inl y ↦
      let (text, o') = mfputs_lem realloc l mf o y in
      let (rest, end) =
        puts_all-content realloc ls (mfputs realloc l mf).1 mf' o' (rw (puts_all, y) at e) in
      (rest ∙ ap (λ x. x ++ joined ls) text ∙ append_assoc (content mf) l (joined ls), end)
]

or_true : (b : Bool) → (b || true) ≡ true
or_true true = refl
or_true false = refl

append_cancel : (a b c d : List ℕ) → length a ≡ length b → a ++ c ≡ b ++ d → c ≡ d
append_cancel a b c d n e =
    sym (drop-append a c) ∙ ap (drop (length a)) e ∙ ap (λ k. drop k (b ++ d)) n ∙ drop-append b d

-- Nothing is read at the end.
nothing : (size : ℕ) (mf : MemFile) → unread mf ≡ [] → mfgets size mf ≡ (none, mf)
unfolding mfgets memfile_read
nothing size mf u =
    let none_left : mf.usedoffs - mf.offs ≡ 0 =
      sym (length-slice mf.base mf.offs (mf.usedoffs - mf.offs)) ∙ ap length u in
    let over : leb mf.usedoffs mf.offs ≡ true = ground arith in
    let stop : ((size == 0) || leb mf.usedoffs mf.offs) ≡ true = rw over (or_true (size == 0)) in
    rw (mfgets, memfile_read, stop) refl

-- The rest of a file behind a line.
rest_unread :
    (l more : List ℕ) (mf : MemFile)
    → IsValid mf
    → unread mf ≡ l ++ more
    → IsValid (record mf { offs = mf.offs + length l })
      × (unread (record mf { offs = mf.offs + length l }) ≡ more)
unfolding IsValid
rest_unread l more mf (inside, room) u =
    let left = mf.usedoffs - mf.offs in
    let k = length l in
    let whole : left ≡ k + length more =
      sym (length-slice mf.base mf.offs left) ∙ ap length u ∙ length-append l more in
    let later : mf.usedoffs - (mf.offs + k) ≡ length more = omega (arith, whole) in
    let parts : slice mf.base mf.offs k ++ slice mf.base (mf.offs + k) (length more) ≡ l ++ more =
      sym (slice-append mf.base mf.offs k (length more))
      ∙ ap (slice mf.base mf.offs) (sym whole)
      ∙ u in
    (
      (omega (arith, whole, inside), room),
      ap (slice mf.base (mf.offs + k)) later
          ∙ append_cancel (slice mf.base mf.offs k) l (slice mf.base (mf.offs + k) (length more))
              more (length-slice mf.base mf.offs k) parts,
    )

gets_all-joined :
    (ls : List (List ℕ)) (size : ℕ) (mf : MemFile)
    → All (λ l. is_line l ≡ true) ls
    → All (λ l. length l < size) ls
    → IsValid mf
    → unread mf ≡ joined ls
    → gets_all (suc (length ls)) size mf ≡ ls
unfolding gets_all joined
gets_all-joined [] size mf a b v u = ap (behind_line (gets_all zero size)) (nothing size mf u)
gets_all-joined (l ∷ ls) size mf (a, a_rest) (b, b_rest) v u =
    let mf' : MemFile = record mf { offs = mf.offs + length l } in
    let line = mfgets-is_line size l (joined ls) mf a b v u in
    let (v', u') = rest_unread l (joined ls) mf v u in
    ap (behind_line (gets_all (suc (length ls)) size)) line
    ∙ ap (λ x. l ∷ x) (gets_all-joined ls size mf' a_rest b_rest v' u')

rewound :
    (mf : MemFile) → mf.offs ≡ mf.usedoffs → (mfseek 0 0 seek_set mf).1 ≡ record mf { offs = 0 }
unfolding mfseek
rewound mf e = elim (Bool-cases (mf.usedoffs == 0)) [
  | inl y ↦
      let start : mf.offs ≡ 0 = e ∙ equal_lem mf.usedoffs 0 y in
      rw (mfseek, y) (ap (λ o. record mf { offs = o }) start)
  | inr f ↦ let inside : ltb mf.usedoffs 0 ≡ false = ground arith in rw (mfseek, f, inside) refl
]

-- Lines of any text without a zero byte, each shorter than the buffer, that `mfputs` has all written to
-- a new file, `mfgets` gives back from its start on, one by one, and then nothing.
pub mfgets-mfputs :
    (realloc : ℕ → Bool) (ls : List (List ℕ)) (size : ℕ) (mf : MemFile)
    → All (λ l. is_line l ≡ true) ls
    → All (λ l. length l < size) ls
    → puts_all realloc ls mfcreate ≡ some mf
    → gets_all (suc (length ls)) size (mfseek 0 0 seek_set mf).1 ≡ ls
unfolding AtEnd IsValid slice
mfgets-mfputs realloc ls size mf a b e =
    let (text, (end, room)) = puts_all-content realloc ls mfcreate mf (refl, omega arith) e in
    let start : MemFile = record mf { offs = 0 } in
    let whole : slice mf.base 0 (mf.usedoffs - 0) ≡ joined ls =
      ap (slice mf.base 0) (omega arith) ∙ text in
    ap (gets_all (suc (length ls)) size) (rewound mf end)
    ∙ gets_all-joined ls size start a b (omega arith, room) whole
