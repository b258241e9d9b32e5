-- ===== src/MemoryFile/Slices.antt =====
-- The bytes of a memory file (memfile.c) as a list.
use pawn_x.Prelude.{
  ℕ, zero, suc, ◌+◌, ◌≤◌, ◌<◌, ◌≡◌, refl, ap, sym, ◌∙◌, arith, false, true, ◌==◌, if◌then◌else◌,
  List, [], ◌∷◌, ◌++◌, length, take,
}
use pawn_x.MemoryFile.{slice, put}

pub length-slice : (base : ℕ → ℕ) (a n : ℕ) → length (slice base a n) ≡ n
unfolding slice
length-slice base a zero = refl
length-slice base a (suc n) = omega (arith, length-slice base (a + 1) n)

pub put_below : (bs : List ℕ) (base : ℕ → ℕ) (a x : ℕ) → x < a → put base a bs x ≡ base x
unfolding put
put_below [] base a x h = refl
put_below (b ∷ bs) base a x h =
    let other : (x == a) ≡ false = ground arith in
    put_below bs (λ y. if y == a then b else base y) (a + 1) x (omega (arith, h)) ∙ rw other refl

pub slice-put_below :
    (bs : List ℕ) (base : ℕ → ℕ) (a b n : ℕ)
    → b + n ≤ a
    → slice (put base a bs) b n ≡ slice base b n
unfolding slice
slice-put_below bs base a b zero h = refl
slice-put_below bs base a b (suc n) h =
    rw (put_below bs base a b (omega (arith, h)))
      (ap (λ s. base b ∷ s) (slice-put_below bs base a (b + 1) n (omega (arith, h))))

pub slice-put : (bs : List ℕ) (base : ℕ → ℕ) (a : ℕ) → slice (put base a bs) a (length bs) ≡ bs
unfolding slice put
slice-put [] base a = refl
slice-put (b ∷ bs) base a =
    let base' : ℕ → ℕ = λ y. if y == a then b else base y in
    let self : (a == a) ≡ true = ground arith in
    let first : base' a ≡ b = rw self refl in
    let here : put base' (a + 1) bs a ≡ b = put_below bs base' (a + 1) a (omega arith) ∙ first in
    rw here (ap (λ s. b ∷ s) (slice-put bs base' (a + 1)))

pub slice-append :
    (base : ℕ → ℕ) (a m n : ℕ) → slice base a (m + n) ≡ slice base a m ++ slice base (a + m) n
unfolding slice
slice-append base a zero n =
    let none_more : zero + n ≡ n = omega arith in
    let same : a + zero ≡ a = omega arith in
    ap (slice base a) none_more ∙ ap (λ b. slice base b n) (sym same)
slice-append base a (suc m) n =
    let one_more : suc m + n ≡ suc (m + n) = omega arith in
    let there : a + 1 + m ≡ a + suc m = omega arith in
    ap (slice base a) one_more
    ∙ ap (λ s. base a ∷ s) (slice-append base (a + 1) m n)
    ∙ ap (λ b. base a ∷ (slice base (a + 1) m ++ slice base b n)) there

-- A part of what is written, in front.
pub take-slice : (base : ℕ → ℕ) (a m n : ℕ) → m ≤ n → slice base a m ≡ take m (slice base a n)
unfolding slice
take-slice base a zero n h = refl
take-slice base a (suc m) zero h = absurd (omega (arith, h))
take-slice base a (suc m) (suc n) h =
    ap (λ s. base a ∷ s) (take-slice base (a + 1) m n (omega (arith, h)))
