-- ===== src/Compact/Spares.antt =====
-- The spare cells of `expand` (amx.c): what the memory is when they are all stored, and how many there
-- are.
use pawn_x.Prelude.{
  ℕ, zero, suc, ◌+◌, ◌-◌, ◌*◌, ◌≤◌, ◌<◌, ◌≡◌, refl, ap, sym, ◌∙◌, arith, ltb, inl, inr, List, [],
  ◌∷◌, ◌++◌, length, Bool-cases,
}
use pawn_x.Memory.{Memory, write}
use pawn_x.Memory.Laws.{write_far}
use pawn_x.Compact.{Spare, code_back, flush}

-- The memory with the spare cells stored, the oldest first.
unfoldable pub settle : Memory → List Spare → Memory
settle code [] = code
settle code (s ∷ ss) = settle (write code s.memloc s.c) ss

-- Spare cells for places from `low` to `high`, the highest first and none at 0.
unfoldable pub Held : ℕ → ℕ → List Spare → Type 0
Held low high [] = Unit
Held low high (s ∷ ss) =
    (s.memloc ≤ high) × (low ≤ s.memloc) × (4 ≤ s.memloc) × Held low (s.memloc - 4) ss

pub length-Held :
    (low high : ℕ) (ss : List Spare) → Held low high ss → 4 * length ss ≤ high + 4 - low
unfolding Held
length-Held low high [] h = omega arith
length-Held low high (s ∷ ss) (a, b, c, h) = omega (arith, length-Held low (s.memloc - 4) ss h)

pub Held-nil_above : (low high : ℕ) (ss : List Spare) → Held low high ss → high < low → ss ≡ []
unfolding Held
Held-nil_above low high [] h l = refl
Held-nil_above low high (s ∷ ss) (a, b, c, h) l = absurd (omega arith)

-- None is left where no code is.
pub Held-nil : (low : ℕ) (ss : List Spare) → Held low 0 ss → ss ≡ []
unfolding Held
Held-nil low [] h = refl
Held-nil low (s ∷ ss) (a, b, c, h) = absurd (omega arith)

-- A spare cell more, in front of those that are there.
pub Held-append :
    (low high c : ℕ) (ss : List Spare)
    → Held (low + 4) high ss
    → low ≤ high
    → 4 ≤ low
    → Held low high (ss ++ (record { memloc = low; c = c } ∷ []))
unfolding Held
Held-append low high c [] h l m = (l, omega arith, m, tt)
Held-append low high c (s ∷ ss) (p, q, r, h) l m =
    (p, omega arith, r, Held-append low (s.memloc - 4) c ss h (omega (arith, q)) m)

pub settle-append :
    (code : Memory) (ss : List Spare) (s : Spare)
    → settle code (ss ++ (s ∷ [])) ≡ write (settle code ss) s.memloc s.c
unfolding settle
settle-append code [] s = refl
settle-append code (x ∷ ss) s = settle-append (write code x.memloc x.c) ss s

-- `flush` stores spare cells, and those that it leaves are for places that are not read yet.
pub flush-Held :
    (codesize low high : ℕ) (code : Memory) (ss : List Spare)
    → Held low high ss
    → Held low codesize (flush codesize code ss).1
unfolding Held flush
flush-Held codesize low high code [] h = tt
flush-Held codesize low high code (s ∷ ss) (a, b, c, h) =
    elim (Bool-cases (ltb codesize s.memloc)) [
      | inl y ↦ rw y (flush-Held codesize low (s.memloc - 4) (write code s.memloc s.c) ss h)
      | inr f ↦ rw f (ground arith, b, c, h)
    ]

pub settle-flush :
    (codesize : ℕ) (code : Memory) (ss : List Spare)
    → settle (flush codesize code ss).0 (flush codesize code ss).1 ≡ settle code ss
unfolding flush settle
settle-flush codesize code [] = refl
settle-flush codesize code (s ∷ ss) = elim (Bool-cases (ltb codesize s.memloc)) [
  | inl y ↦ rw y (settle-flush codesize (write code s.memloc s.c) ss)
  | inr f ↦ rw f refl
]

-- `flush` writes behind what is not read yet.
flush_below :
    (codesize x : ℕ) (code : Memory) (ss : List Spare)
    → x < codesize
    → (flush codesize code ss).0 x ≡ code x
unfolding flush
flush_below codesize x code [] h = refl
flush_below codesize x code (s ∷ ss) h = elim (Bool-cases (ltb codesize s.memloc)) [
  | inl y ↦
      let behind : codesize < s.memloc = ground arith in
      rw y (
        flush_below codesize x (write code s.memloc s.c) ss h
        ∙ write_far code s.memloc s.c x (inl (omega arith)))
  | inr f ↦ rw f refl
]

code_back_same :
    (code code' : Memory) (n : ℕ)
    → ((x : ℕ) → x < n → code x ≡ code' x)
    → code_back code n ≡ code_back code' n
unfolding code_back
code_back_same code code' zero h = refl
code_back_same code code' (suc n) h =
    rw (h n (omega arith))
      (ap (λ l. code' n ∷ l) (code_back_same code code' n (λ x l. h x (omega arith))))

pub code_back-flush :
    (codesize : ℕ) (code : Memory) (ss : List Spare)
    → code_back (flush codesize code ss).0 codesize ≡ code_back code codesize
code_back-flush codesize code ss =
    code_back_same (flush codesize code ss).0 code codesize
      (λ x h. flush_below codesize x code ss h)

pub code_back-write :
    (code : Memory) (a c n : ℕ) → n ≤ a → code_back (write code a c) n ≡ code_back code n
code_back-write code a c n h =
    code_back_same (write code a c) code n (λ x l. write_far code a c x (inl (omega arith)))

pub length-code_back : (code : Memory) (n : ℕ) → length (code_back code n) ≡ n
unfolding code_back
length-code_back code zero = refl
length-code_back code (suc n) = omega (arith, length-code_back code n)

-- What is left behind the bytes that are read.
pub code_back_rest :
    (code : Memory) (n : ℕ) (xs ys : List ℕ)
    → code_back code n ≡ xs ++ ys
    → code_back code (length ys) ≡ ys
unfolding code_back
code_back_rest code n [] ys e =
    ap (code_back code) (sym (ap length e) ∙ length-code_back code n) ∙ e
code_back_rest code zero (x ∷ xs) ys e = absurd (cc e)
code_back_rest code (suc n) (x ∷ xs) ys e = code_back_rest code n xs ys (cc e)
