-- ===== src/Assembler/Search.antt =====
-- `findopcode` (sc6.c): the binary search for a name.
use Prim.Native.Nat.{Ordering}
use mathlib.Core.Path.{subst}
use mathlib.Core.Option.{some-injective}
use native.Mathlib.Nat.{pow-zero, pow-suc}
use pawn_x.Prelude.{
  ℕ, zero, suc, ◌+◌, ◌-◌, ◌/◌, ◌^◌, ◌≤◌, ◌<◌, ◌≡◌, ◌↔◌, inl, inr, refl, ap, sym, ◌∙◌, arith, Bool,
  true, false, ◌&&◌, ltb, ltb→lt, leb, ◌==◌, if◌then◌else◌, List, [], ◌∷◌, none, some, length, take,
  ℕ_discrete, and_lem, equal_lem, Bool-cases, Option-cases,
}
use pawn_x.Prelude.Chars.{to_lower}
use pawn_x.Assembler.{stricmp, name_at, is_gt, is_eq, search, findopcode, max_instr_len}
use pawn_x.Assembler.Table.{opcodelist, codes_a_to_i, codes_j_to_o, codes_p_to_z}

not_eq :
    (c d : ℕ)
    → is_eq (if ltb (to_lower c) (to_lower d) then Ordering.lt else Ordering.gt) ≡ true
    → ⊥
not_eq c d e = elim (Bool-cases (ltb (to_lower c) (to_lower d))) [
  | inl y ↦ cc (rw y at e)
  | inr f ↦ cc (rw f at e)
]

-- Texts that differ in case only compare alike with every other.
stricmp-cong : (a b x : List ℕ) → is_eq (stricmp a b) ≡ true → stricmp a x ≡ stricmp b x
unfolding stricmp
stricmp-cong [] [] x e = refl
stricmp-cong [] (d ∷ b) x e = absurd (cc e)
stricmp-cong (c ∷ a) [] x e = absurd (cc e)
stricmp-cong (c ∷ a) (d ∷ b) [] e = refl
stricmp-cong (c ∷ a) (d ∷ b) (y ∷ x) e = elim (Bool-cases (to_lower c == to_lower d)) [
  | inl y' ↦
      let same : to_lower c ≡ to_lower d = ground arith in
      rw (stricmp, same, stricmp-cong a b x (rw (stricmp, y') at e)) refl
  | inr f ↦ absurd (not_eq c d (rw (stricmp, f) at e))
]

search-cong :
    (a b : List ℕ) (fuel low high : ℕ)
    → ((x : List ℕ) → stricmp a x ≡ stricmp b x)
    → search a fuel low high ≡ search b fuel low high
unfolding search
search-cong a b zero low high e = refl
search-cong a b (suc fuel) low high e =
    let mid = (low + high) / 2 in
    elim (Bool-cases (ltb low high)) [
      | inr f ↦ rw (search, f) refl
      | inl y ↦ elim (Bool-cases (is_gt (stricmp b (name_at mid)))) [
        | inl g ↦ rw (search, y, e (name_at mid), g) (search-cong a b fuel (mid + 1) high e)
        | inr g ↦ rw (search, y, e (name_at mid), g) (search-cong a b fuel low mid e)
      ]
    ]

-- The search ends when `high - low` is below a power of two.
search_ends :
    (str : List ℕ) (n low high : ℕ)
    → high < low + 2 ^ n
    → (k : ℕ) × (search str (suc n) low high ≡ some k)
unfolding search
search_ends str zero low high h =
    let f : ltb low high ≡ false = grind (arith, pow-zero 2, h) in (low, rw (search, f))
search_ends str (suc n) low high h = elim (Bool-cases (ltb low high)) [
  | inr f ↦ (low, rw (search, f))
  | inl y ↦
      let mid = (low + high) / 2 in
      elim (Bool-cases (is_gt (stricmp str (name_at mid)))) [
        | inl g ↦
            let (k, e) = search_ends str n (mid + 1) high (omega (arith, h, pow-suc 2 n)) in
            (k, rw (search, y, g, e))
        | inr g ↦
            let (k, e) =
              search_ends str n low mid (omega (arith, h, pow-suc 2 n, ltb→lt low high y)) in
            (k, rw (search, y, g, e))
      ]
]

-- The search for a name of the table ends at its index.
abbrev finds : ℕ → Bool
finds k = elim (search (name_at k) 9 1 (length opcodelist - 1)) [
  | none ↦ false
  | some low ↦ low == k
]

finds_to : ℕ → Bool
finds_to zero = true
finds_to (suc n) = finds (suc n) && finds_to n

finds_all : finds_to 158 ≡ true
unfolding finds_to search stricmp name_at opcodelist codes_a_to_i codes_j_to_o codes_p_to_z
finds_all = refl

finds_lem : (n k : ℕ) → finds_to n ≡ true → 1 ≤ k → k ≤ n → finds k ≡ true
unfolding finds_to
finds_lem zero k e l h = absurd (omega (arith, l, h))
finds_lem (suc n) k e l h = elim (ℕ_discrete k (suc n)) [
  | yes q ↦ subst (λ j. finds j ≡ true) (sym q) (and_lem (finds (suc n)) (finds_to n) e).0
  | no ne ↦ finds_lem n k (and_lem (finds (suc n)) (finds_to n) e).1 l (omega (arith, h, ne))
]

length-opcodelist : length opcodelist ≡ 159
unfolding opcodelist codes_a_to_i codes_j_to_o codes_p_to_z
length-opcodelist = refl

search-name_at :
    (k : ℕ)
    → 1 ≤ k
    → k < length opcodelist
    → search (name_at k) 9 1 (length opcodelist - 1) ≡ some k
search-name_at k l h =
    let e = finds_lem 158 k finds_all l (omega (arith, h, length-opcodelist)) in
    elim (Option-cases (search (name_at k) 9 1 (length opcodelist - 1))) [
      | inl n ↦ absurd (cc (rw (finds, n) at e))
      | inr (low, s) ↦
          let same : low ≡ k = equal_lem low k (rw (finds, s) at e) in s ∙ ap (λ j. some j) same
    ]

is_eq_lem : (o : Ordering) → is_eq o ≡ true → o ≡ Ordering.eq
is_eq_lem Ordering.lt e = absurd (cc e)
is_eq_lem Ordering.eq e = refl
is_eq_lem Ordering.gt e = absurd (cc e)

-- For a name shorter than MAX_INSTR_LEN, `findopcode` returns the index of an entry behind the first
-- exactly if the name equals that of the entry, case aside.
pub findopcode-stricmp :
    (instr : List ℕ) (maxlen k : ℕ)
    → maxlen < max_instr_len
    → 1 ≤ k
    → k < length opcodelist
    → (findopcode instr maxlen ≡ some k) ↔ (stricmp (take maxlen instr) (name_at k) ≡ Ordering.eq)
unfolding findopcode
findopcode-stricmp instr maxlen k m l h =
    let str = take maxlen instr in
    let short : leb max_instr_len maxlen ≡ false = ground arith in
    let bound : length opcodelist - 1 < 1 + 2 ^ 8 = omega (arith, length-opcodelist) in
    let (low, s) = search_ends str 8 1 (length opcodelist - 1) bound in
    (
      λ e. elim (Bool-cases (is_eq (stricmp str (name_at low)))) [
        | inl y ↦
            let same = some-injective low k (rw (findopcode, short, s, y) at e) in
            subst (λ j. stricmp str (name_at j) ≡ Ordering.eq) same
              (is_eq_lem (stricmp str (name_at low)) y)
        | inr f ↦
            let none_found = some-injective 0 k (rw (findopcode, short, s, f) at e) in
            absurd (omega (arith, none_found, l))
      ],
      λ e.
          let same = stricmp-cong str (name_at k) in
          let alike : is_eq (stricmp str (name_at k)) ≡ true = rw e refl in
          let there =
            search-cong str (name_at k) 9 1 (length opcodelist - 1) (λ x. same x alike)
            ∙ search-name_at k l h in
          rw (findopcode, short, there, e) refl,
    )
