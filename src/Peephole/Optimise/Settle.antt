-- ===== src/Peephole/Optimise/Settle.antt =====
-- The end of the loops of `stgopt` (compiler/source/compiler/sc7.c), and the text then.
use mathlib.Core.Path.{subst}
use pawn_x.Prelude.{
  ℕ, zero, suc, ◌+◌, ◌-◌, ◌≤◌, ◌<◌, ◌≡◌, ◌⊎◌, inl, inr, refl, ap, sym, ◌∙◌, arith, Bool, true,
  false, leb, leb→le, ◌==◌, if◌then◌else◌, List, [], ◌∷◌, ◌++◌, drop, length-drop, Option, none,
  some, length, length-append, All, Bool-cases, Option-cases,
}
use pawn_x.Peephole.{Symbols, matchsequence, replacesequence, strreplace}
use pawn_x.Peephole.Table.{Sequence}
use pawn_x.Peephole.Shrink.{shrinks, shrinks_lem}
use pawn_x.Peephole.Optimise.{
  Staged, rewritten, rewrite_first, rewrite_start, next_string, optimize_pass, optimize,
}

length-strreplace :
    (dest replace : List ℕ) (sub_length : ℕ)
    → sub_length ≤ length dest
    → length (strreplace dest replace sub_length) + sub_length ≡ length replace + length dest
unfolding strreplace
length-strreplace dest replace n h =
    let l = length replace in
    let below = length-append replace (drop l (drop (n - l) dest)) in
    let above = length-append replace (drop n dest) in
    let down = length-drop l (drop (n - l) dest) in
    let moved = length-drop (n - l) dest in
    let up = length-drop n dest in
    elim (Bool-cases (leb l n)) [
      | inl y ↦ rw y (omega (arith, below, down, moved, leb→le l n y, h))
      | inr f ↦ rw f (omega (arith, above, up, h))
    ]

pub next_string_lem : (t : List ℕ) → (next_string t).0 ++ (next_string t).1 ≡ t
unfolding next_string
next_string_lem [] = refl
next_string_lem (c ∷ t) = elim (Bool-cases (c == 0)) [
  | inl y ↦ rw y refl
  | inr f ↦ rw f (ap (λ u. c ∷ u) (next_string_lem t))
]

next_string-lt : (t : List ℕ) → length (next_string t).1 ≤ length t - 1
unfolding next_string
next_string-lt [] = omega arith
next_string-lt (c ∷ t) = elim (Bool-cases (c == 0)) [
  | inl y ↦ rw y (omega arith)
  | inr f ↦ rw f (omega (arith, next_string-lt t))
]

length-next_string : (t : List ℕ) → length (next_string t).0 + length (next_string t).1 ≡ length t
length-next_string t =
    omega (arith, length-append (next_string t).0 (next_string t).1, ap length (next_string_lem t))

-- The suffixes of a text at which a string starts, given whether one starts at its beginning.
pub string_starts : Bool → List ℕ → List (List ℕ)
string_starts first [] = []
string_starts first (c ∷ t) =
    let rest = string_starts (c == 0) t in if first then (c ∷ t) ∷ rest else rest

string_starts_lem : (t : List ℕ) → string_starts false t ≡ string_starts true (next_string t).1
unfolding string_starts next_string
string_starts_lem [] = refl
string_starts_lem (c ∷ t) = elim (Bool-cases (c == 0)) [
  | inl y ↦ rw y refl
  | inr f ↦ rw f (string_starts_lem t)
]

pub zero-or-suc : (n : ℕ) → (n ≡ 0) ⊎ ((m : ℕ) × (n ≡ suc m))
zero-or-suc zero = inl refl
zero-or-suc (suc m) = inr (m, refl)

-- No sequence matches at the text.
abbrev pub IsStuck : List Sequence → List ℕ → Type 0
IsStuck qs text = All (λ q. matchsequence text q.find ≡ none) qs

abbrev pub IsSettled : List Sequence → List ℕ → Type 0
IsSettled qs text = All (IsStuck qs) (string_starts true text)

module _ (text : List ℕ) where
  -- A match of a sequence that shrinks is applied, and the text gets shorter.
  abbrev pub replaced : Sequence → List ℕ → Symbols → List ℕ
  replaced q rest s = strreplace text (replacesequence q.replace s) (length text - length rest)

  pub rewritten_lem :
      (q : Sequence) (rest : List ℕ) (s : Symbols) (next : Option (List ℕ × ℕ))
      → shrinks q ≡ true
      → matchsequence text q.find ≡ some (rest, s)
      → (rewritten q text (some (rest, s)) next ≡ some (replaced q rest s, q.savesize))
        × (length (replaced q rest s) < length text)
  rewritten_lem q rest s next h m =
      let replace = replacesequence q.replace s in
      let n = length text - length rest in
      let l = shrinks_lem q text rest s h m in
      let fits : leb (length replace) n ≡ true = ground arith in
      (rw fits, omega (arith, l, length-strreplace text replace n (omega arith)))

  rewrite_first_lem :
      (qs : List Sequence)
      → All (λ q. shrinks q ≡ true) qs
      → ((rewrite_first qs text ≡ none) × IsStuck qs text)
        ⊎ ((t : List ℕ) × ((save : ℕ) × ((rewrite_first qs text ≡ some (t, save))
                × (length t < length text))))
  unfolding rewrite_first
  rewrite_first_lem [] h = inl (refl, tt)
  rewrite_first_lem (q ∷ qs) (h, hs) = elim (Option-cases (matchsequence text q.find)) [
    | inl n ↦ elim (rewrite_first_lem qs hs) [
      | inl (e, stuck) ↦ inl (rw (n, e), (n, stuck))
      | inr (t, (save, (e, l))) ↦ inr (t, (save, (rw (n, e), l)))
    ]
    | inr ((rest, s), m) ↦
        let (e, l) = rewritten_lem q rest s (rewrite_first qs text) h m in
        inr (replaced q rest s, (q.savesize, (rw m e, l)))
  ]

abbrev IsShorter : ℕ → Staged → Type 0
IsShorter n r = r.matches + length (r.text) ≤ n

module _ (qs : List Sequence) (h : All (λ q. shrinks q ≡ true) qs) where
  -- With fuel for each byte, the loop at a string start ends where no sequence matches.
  rewrite_start_lem :
      (fuel : ℕ) (text : List ℕ)
      → length text < fuel
      → (r : Staged) × ((rewrite_start qs fuel text ≡ some r)
          × (IsShorter (length text) r × (IsStuck qs (r.text) × (r.matches ≡ 0 → r.text ≡ text))))
  unfolding rewrite_start
  rewrite_start_lem zero text l = absurd (omega (arith, l))
  rewrite_start_lem (suc fuel) text l = elim (rewrite_first_lem text qs h) [
    | inl (e, stuck) ↦ (
      record { text = text; matches = 0; saved = 0 },
      (rw (rewrite_start, e), (omega arith, (stuck, λ m. refl))),
    )
    | inr (t, (save, (e, less))) ↦
        let (r, (e', (short, (stuck, same)))) = rewrite_start_lem fuel t (omega (arith, less, l)) in
        (
          record { text = r.text; matches = suc (r.matches); saved = save + r.saved },
          (
            rw (rewrite_start, e, e'),
            (omega (arith, short, less), (stuck, λ m. absurd (omega (arith, m)))),
          ),
        )
  ]

  -- A pass in which nothing matched left a text in which nothing matches.
  IsPass : List ℕ → Staged → Type 0
  IsPass text r = IsShorter (length text) r × (r.matches ≡ 0 → (r.text ≡ text) × IsSettled qs text)

  optimize_pass_lem :
      (fuel : ℕ) (text : List ℕ)
      → length text < fuel
      → (r : Staged) × ((optimize_pass qs fuel text ≡ some r) × IsPass text r)
  unfolding optimize_pass IsPass string_starts
  optimize_pass_lem zero text l = absurd (omega (arith, l))
  optimize_pass_lem (suc fuel) [] l =
      (record { text = []; matches = 0; saved = 0 }, (refl, (omega arith, λ m. (refl, tt))))
  optimize_pass_lem (suc fuel) (c ∷ t) l =
      let (r, (e, (short, (stuck, same)))) = rewrite_start_lem (suc fuel) (c ∷ t) l in
      let cut = length-next_string (r.text) in
      let (r', (e', (short', same'))) =
        optimize_pass_lem fuel (next_string (r.text)).1
          (omega (arith, next_string-lt (r.text), short, l)) in
      (
        record {
          text = (next_string (r.text)).0 ++ r'.text;
          matches = r.matches + r'.matches;
          saved = r.saved + r'.saved;
        },
        (
          rw (optimize_pass, e, e'),
          (
            omega (arith, short, short', cut, length-append (next_string (r.text)).0 (r'.text)),
            λ m.
                let first = same (omega (arith, m)) in
                let (rest, settled) = same' (omega (arith, m)) in
                (
                  ap (λ u. (next_string (r.text)).0 ++ u) rest ∙ next_string_lem (r.text) ∙ first,
                  (
                    subst (IsStuck qs) first stuck,
                    subst (All (IsStuck qs))
                        (ap (λ u. string_starts true (next_string u).1) first
                          ∙ sym (string_starts_lem (c ∷ t)))
                        settled,
                  ),
                ),
          ),
        ),
      )

  -- `optimize` leaves a text that is not longer and in which nothing matches.
  pub optimize_lem :
      (fuel : ℕ) (text : List ℕ)
      → length text < fuel
      → (r : Staged) × ((optimize qs fuel text ≡ some r)
          × ((length (r.text) ≤ length text) × ((r.matches ≡ 0) × IsSettled qs (r.text))))
  unfolding optimize IsPass
  optimize_lem zero text l = absurd (omega (arith, l))
  optimize_lem (suc fuel) text l =
      let (r, (e, (short, same))) = optimize_pass_lem (suc fuel) text l in
      elim (zero-or-suc (r.matches)) [
        | inl z ↦
            let (same_text, settled) = same z in
            (
              r,
              (
                rw (optimize, e, z),
                (omega (arith, short), (z, subst (IsSettled qs) (sym same_text) settled)),
              ),
            )
        | inr (m, p) ↦
            let (r', (e', (short', (z, settled)))) =
              optimize_lem fuel (r.text) (omega (arith, short, p, l)) in
            (
              record { text = r'.text; matches = r'.matches; saved = r.saved + r'.saved },
              (rw (optimize, e, p, e'), (omega (arith, short, short'), (z, settled))),
            )
      ]
