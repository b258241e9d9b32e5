-- ===== src/Peephole/Shrink.antt =====
-- The length of a replacement against the length of the text that it replaces (`matchsequence`,
-- `replacesequence` and `strreplace` of sc7.c).
use mathlib.Core.Path.{subst}
use mathlib.Core.Option.{some-injective}
use pawn_x.Prelude.{
  ℕ, ◌+◌, ◌≤◌, ◌<◌, ◌≡◌, inl, inr, refl, ap, arith, Bool, true, false, ◌==◌, if◌then◌else◌, ltb,
  List, [], ◌∷◌, Option, none, some, length, length-append, All, ltb→lt, Option-cases, ℕ_discrete,
}
use pawn_x.Prelude.Chars.{codes}
use pawn_x.Peephole.{
  Item, symbol, negative, blank, line, char, plain, scan, Symbols, unbound, skip_blanks,
  matchsequence, write_items, replacesequence,
}
use pawn_x.Peephole.Table.{Sequence}
use pawn_x.Peephole.Match.{weight, Stands, TakesAll, match_items-TakesAll, skip_blanks-le}

-- The symbols of a template, in order, and the bytes beside them: at least so many in the text that
-- is found, and so many in the text that is written.
unfoldable pub vars : List Item → List ℕ
vars [] = []
vars (symbol k ∷ is) = k ∷ vars is
vars (negative ds ∷ is) = vars is
vars (blank ∷ is) = vars is
vars (line more ∷ is) = vars is
vars (char c ∷ is) = vars is

unfoldable pub fixed_found : List Item → ℕ
fixed_found [] = 0
fixed_found (symbol k ∷ is) = fixed_found is
fixed_found (negative ds ∷ is) = fixed_found is
fixed_found (blank ∷ is) = 1 + fixed_found is
fixed_found (line more ∷ is) = 2 + fixed_found is
fixed_found (char c ∷ is) = 1 + fixed_found is

unfoldable pub fixed_written : List Item → ℕ
fixed_written [] = 0
fixed_written (symbol k ∷ is) = fixed_written is
fixed_written (negative ds ∷ is) = length ds + fixed_written is
fixed_written (blank ∷ is) = 1 + fixed_written is
fixed_written (line more ∷ is) = (if more then 3 else 2) + fixed_written is
fixed_written (char c ∷ is) = 1 + fixed_written is

unfoldable pub remove : ℕ → List ℕ → Option (List ℕ)
remove k [] = none
remove k (j ∷ js) =
    let rest = remove k js in
    if j == k then some js else elim rest [ none ↦ none | some ws ↦ some (j ∷ ws) ]

-- The symbols that are left when those of the replacement are taken away; `none` if they are not
-- all there.
unfoldable pub spare : List ℕ → List ℕ → Option (List ℕ)
unfolding remove
spare [] vs = some vs
spare (k ∷ ks) vs = elim (remove k vs) [ none ↦ none | some ws ↦ spare ks ws ]

abbrev pub is_shorter : ℕ → ℕ → Option (List ℕ) → Bool
is_shorter written found none = false
is_shorter written found (some ws) = ltb (1 + written) (found + length ws)

-- The replacement is shorter whatever stands for the symbols.
unfoldable pub shrinks : Sequence → Bool
unfolding vars fixed_found fixed_written spare scan
shrinks q =
    let found = scan true plain (codes q.find) in
    let written = scan false plain (codes q.replace) in
    is_shorter (fixed_written written) (fixed_found found) (spare (vars written) (vars found))

-- What all symbols have, those that are taken away and those that are left have.
remove-All :
    (P : ℕ → Type 0) (k : ℕ) (vs ws : List ℕ) → remove k vs ≡ some ws → All P vs → P k × All P ws
unfolding remove
remove-All P k [] ws e h = absurd (cc e)
remove-All P k (j ∷ js) ws e (h, hs) = elim (ℕ_discrete j k) [
  | yes q ↦
      let here : (j == k) ≡ true = ground arith in
      (subst P q h, subst (All P) (some-injective js ws (rw (remove, here) at e)) hs)
  | no ne ↦
      let here : (j == k) ≡ false = ground arith in
      elim (Option-cases (remove k js)) [
        | inl n ↦ absurd (cc (rw (remove, here, n) at e))
        | inr (us, m) ↦
            let (found, left) = remove-All P k js us m hs in
            (
              found,
              subst (All P) (some-injective (j ∷ us) ws (rw (remove, here, m) at e)) (h, left),
            )
      ]
]

pub spare-All : (P : ℕ → Type 0) (ks vs ws : List ℕ) → spare ks vs ≡ some ws → All P vs → All P ks
unfolding spare
spare-All P [] vs ws e h = tt
spare-All P (k ∷ ks) vs ws e h = elim (Option-cases (remove k vs)) [
  | inl n ↦ absurd (cc (rw (spare, n) at e))
  | inr (us, m) ↦
      let (first, left) = remove-All P k vs us m h in
      (first, spare-All P ks us ws (rw (spare, m) at e) left)
]

module _ (s : Symbols) where
  -- The bytes that symbols take.
  abbrev lens : List ℕ → ℕ
  lens [] = 0
  lens (k ∷ ks) = length (s k) + lens ks

  weight_lem : (is : List Item) → weight is s ≡ fixed_found is + lens (vars is)
  unfolding fixed_found vars
  weight_lem [] = refl
  weight_lem (symbol k ∷ is) = omega (arith, weight_lem is)
  weight_lem (negative ds ∷ is) = omega (arith, weight_lem is)
  weight_lem (blank ∷ is) = omega (arith, weight_lem is)
  weight_lem (line more ∷ is) = omega (arith, weight_lem is)
  weight_lem (char c ∷ is) = omega (arith, weight_lem is)

  length-write_items :
      (is : List Item) → length (write_items is s) ≡ fixed_written is + lens (vars is)
  unfolding write_items fixed_written vars
  length-write_items [] = refl
  length-write_items (symbol k ∷ is) =
      omega (arith, length-append (s k) (write_items is s), length-write_items is)
  length-write_items (negative ds ∷ is) =
      omega (arith, length-append ds (write_items is s), length-write_items is)
  length-write_items (blank ∷ is) = omega (arith, length-write_items is)
  length-write_items (line true ∷ is) = omega (arith, length-write_items is)
  length-write_items (line false ∷ is) = omega (arith, length-write_items is)
  length-write_items (char c ∷ is) = omega (arith, length-write_items is)

  abbrev pub IsBound : ℕ → Type 0
  IsBound k = 1 ≤ length (s k)

  remove_lem : (k : ℕ) (vs ws : List ℕ) → remove k vs ≡ some ws → lens vs ≡ length (s k) + lens ws
  unfolding remove
  remove_lem k [] ws e = absurd (cc e)
  remove_lem k (j ∷ js) ws e = elim (ℕ_discrete j k) [
    | yes q ↦
        let here : (j == k) ≡ true = ground arith in
        let e' = some-injective js ws (rw (remove, here) at e) in
        omega (arith, ap lens e', ap (λ n. length (s n)) q)
    | no ne ↦
        let here : (j == k) ≡ false = ground arith in
        elim (Option-cases (remove k js)) [
          | inl n ↦ absurd (cc (rw (remove, here, n) at e))
          | inr (us, m) ↦
              let e' = some-injective (j ∷ us) ws (rw (remove, here, m) at e) in
              omega (arith, remove_lem k js us m, ap lens e')
        ]
  ]

  lens-IsBound : (ws : List ℕ) → All IsBound ws → length ws ≤ lens ws
  lens-IsBound [] b = omega arith
  lens-IsBound (k ∷ ws) (h, b) = omega (arith, h, lens-IsBound ws b)

  spare_lem :
      (ks vs ws : List ℕ) → spare ks vs ≡ some ws → All IsBound vs → lens ks + length ws ≤ lens vs
  unfolding spare
  spare_lem [] vs ws e b =
      let e' = some-injective vs ws e in omega (arith, ap length e', lens-IsBound vs b)
  spare_lem (k ∷ ks) vs ws e b = elim (Option-cases (remove k vs)) [
    | inl n ↦ absurd (cc (rw (spare, n) at e))
    | inr (us, m) ↦
        let (first, others) = remove-All IsBound k vs us m b in
        omega (arith, remove_lem k vs us m, spare_lem ks us ws (rw (spare, m) at e) others)
  ]

  pub vars-IsBound : (is : List Item) → ((k : ℕ) → Stands k is → IsBound k) → All IsBound (vars is)
  unfolding vars
  vars-IsBound [] h = tt
  vars-IsBound (symbol k ∷ is) h = (h k (inl refl), vars-IsBound is (λ j w. h j (inr w)))
  vars-IsBound (negative ds ∷ is) h = vars-IsBound is (λ j w. h j (inr w))
  vars-IsBound (blank ∷ is) h = vars-IsBound is (λ j w. h j (inr w))
  vars-IsBound (line more ∷ is) h = vars-IsBound is (λ j w. h j (inr w))
  vars-IsBound (char c ∷ is) h = vars-IsBound is (λ j w. h j (inr w))

  -- A match leaves room for a template whose symbols are among those that were found.
  room :
      (found written : List Item) (text rest : List ℕ)
      → TakesAll found text unbound rest s
      → is_shorter (fixed_written written) (fixed_found found) (spare (vars written) (vars found))
        ≡ true
      → 1 + length (write_items written s) + length rest < length text
  room found written text rest m e = elim (Option-cases (spare (vars written) (vars found))) [
    | inl n ↦ absurd (cc (rw n at e))
    | inr (ws, h) ↦ omega (
      arith,
      m.shorter,
      weight_lem found,
      length-write_items written,
      spare_lem (vars written) (vars found) ws h (vars-IsBound found m.bound),
      ltb→lt (1 + fixed_written written) (fixed_found found + length ws) (rw h at e),
    )
  ]

-- A sequence that shrinks replaces what it matches by fewer bytes.
pub shrinks_lem :
    (q : Sequence) (text rest : List ℕ) (s : Symbols)
    → shrinks q ≡ true
    → matchsequence text q.find ≡ some (rest, s)
    → length (replacesequence q.replace s) + length rest < length text
unfolding shrinks matchsequence replacesequence
shrinks_lem q text rest s e m =
    let found = scan true plain (codes q.find) in
    let written = scan false plain (codes q.replace) in
    let t = match_items-TakesAll found (skip_blanks text) unbound rest s m in
    omega (arith, room s found written (skip_blanks text) rest t e, skip_blanks-le text)
