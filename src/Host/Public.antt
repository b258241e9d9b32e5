-- ===== src/Host/Public.antt =====
-- `amx_FindPublic` (amx.c): the binary search in the table of public functions.
use Prim.Native.Nat.{Ordering}
use mathlib.Core.Path.{subst}
use mathlib.Core.Option.{some-injective}
use pawn_x.Prelude.{
  ℕ, zero, suc, ◌+◌, ◌-◌, ◌/◌, ◌≤◌, ◌<◌, ◌≡◌, ◌≢◌, ◌⊎◌, inl, inr, refl, ap, sym, ◌∙◌, arith, true,
  false, ltb, ltb→lt, ◌==◌, equal_lem, List, [], ◌∷◌, Option, none, some, length, Bool-cases,
  Option-cases,
}
use pawn_x.Machine.{err_none}
use pawn_x.Host.{strcmp, name_at, search, amx_FindPublic, err_notfound, int_max}

strcmp_refl : (a : List ℕ) → strcmp a a ≡ Ordering.eq
unfolding strcmp
strcmp_refl [] = refl
strcmp_refl (c ∷ a) = let same : (c == c) ≡ true = ground arith in rw (same, strcmp_refl a)

Ordering-cases : (o : Ordering) → (o ≡ Ordering.lt) ⊎ ((o ≡ Ordering.eq) ⊎ (o ≡ Ordering.gt))
Ordering-cases Ordering.lt = inl refl
Ordering-cases Ordering.eq = inr (inl refl)
Ordering-cases Ordering.gt = inr (inr refl)

strcmp_eq : (a b : List ℕ) → strcmp a b ≡ Ordering.eq → a ≡ b
unfolding strcmp
strcmp_eq [] [] e = refl
strcmp_eq [] (d ∷ b) e = absurd (cc e)
strcmp_eq (c ∷ a) [] e = absurd (cc e)
strcmp_eq (c ∷ a) (d ∷ b) e = elim (Bool-cases (c == d)) [
  | inl y ↦
      let rest = strcmp_eq a b (rw (strcmp, y) at e) in
      ap (λ x. x ∷ a) (equal_lem c d y) ∙ ap (λ x. d ∷ x) rest
  | inr f ↦ elim (Bool-cases (ltb c d)) [
    | inl y ↦ absurd (cc (rw (strcmp, f, y) at e))
    | inr g ↦ absurd (cc (rw (strcmp, f, g) at e))
  ]
]

strcmp_gt : (a b : List ℕ) → strcmp a b ≡ Ordering.lt → strcmp b a ≡ Ordering.gt
unfolding strcmp
strcmp_gt [] [] e = absurd (cc e)
strcmp_gt [] (d ∷ b) e = refl
strcmp_gt (c ∷ a) [] e = absurd (cc e)
strcmp_gt (c ∷ a) (d ∷ b) e = elim (Bool-cases (c == d)) [
  | inl y ↦
      let back : (d == c) ≡ true = ground arith in
      rw (strcmp, back) (strcmp_gt a b (rw (strcmp, y) at e))
  | inr f ↦
      let back : (d == c) ≡ false = ground arith in
      elim (Bool-cases (ltb c d)) [
        | inl y ↦ let no : ltb d c ≡ false = ground arith in rw (strcmp, back, no) refl
        | inr g ↦ absurd (cc (rw (strcmp, f, g) at e))
      ]
]

-- The names stand in the order of `strcmp`, each once, as the compiler writes the table.
unfoldable pub IsSorted : List (List ℕ) → Type 0
IsSorted names =
    (i j : ℕ) → i < j → j < length names → strcmp (name_at names i) (name_at names j) ≡ Ordering.lt

-- In a sorted table names compare as their indices do.
sorted-cases :
    (names : List (List ℕ)) (i j : ℕ)
    → IsSorted names
    → i < length names
    → j < length names
    → ((i < j) × (strcmp (name_at names i) (name_at names j) ≡ Ordering.lt))
      ⊎ (((i ≡ j) × (strcmp (name_at names i) (name_at names j) ≡ Ordering.eq))
          ⊎ ((j < i) × (strcmp (name_at names i) (name_at names j) ≡ Ordering.gt)))
unfolding IsSorted
sorted-cases names i j s a b = elim (Bool-cases (ltb i j)) [
  | inl y ↦ inl (ltb→lt i j y, s i j (ltb→lt i j y) b)
  | inr f ↦ elim (Bool-cases (ltb j i)) [
    | inl y ↦
        inr (
          inr
            (ltb→lt j i y, strcmp_gt (name_at names j) (name_at names i) (s j i (ltb→lt j i y) a)))
    | inr g ↦
        let same : i ≡ j = ground arith in
        inr (
          inl (
            same,
            ap (λ k. strcmp (name_at names i) (name_at names k)) (sym same)
                ∙ strcmp_refl (name_at names i),
          ))
  ]
]

-- Where the name stands from the first index on and below the last, the search finds it.
search_hit :
    (fuel : ℕ) (names : List (List ℕ)) (first last k : ℕ)
    → IsSorted names
    → first ≤ k
    → k < last
    → last ≤ length names
    → last < first + fuel
    → search fuel names (name_at names k) first last ≡ some (some k)
unfolding search
search_hit zero names first last k s l h b f = absurd (omega (arith, l, h, f))
search_hit (suc fuel) names first last k s l h b f =
    let y : ltb first last ≡ true = ground arith in
    let mid = (first + (last - 1)) / 2 in
    elim (sorted-cases names mid k s (omega (arith, l, h, b)) (omega (arith, h, b))) [
      | inl (less, lt) ↦
          rw (search, y, lt)
            (search_hit fuel names (mid + 1) last k s (omega (arith, less)) h b
              (omega (arith, f, l, h)))
      | inr c ↦ elim c [
        | inl (same, eq) ↦ rw (search, y, eq) (ap (λ i. some (some i)) same)
        | inr (more, gt) ↦
            rw (search, y, gt)
              (search_hit fuel names first mid k s l more (omega (arith, b, h, l))
                (omega (arith, f, l, h)))
      ]
    ]

-- What a search finds is the name.
search_sound :
    (fuel : ℕ) (names : List (List ℕ)) (name : List ℕ) (first last k : ℕ)
    → search fuel names name first last ≡ some (some k)
    → (name_at names k ≡ name) × (k < last)
unfolding search
search_sound zero names name first last k e = absurd (cc e)
search_sound (suc fuel) names name first last k e = elim (Bool-cases (ltb first last)) [
  | inr f ↦ absurd (cc (rw (search, f) at e))
  | inl y ↦
      let mid = (first + (last - 1)) / 2 in
      let below : mid < last = omega (arith, ltb→lt first last y) in
      elim (Ordering-cases (strcmp (name_at names mid) name)) [
        | inl lt ↦ search_sound fuel names name (mid + 1) last k (rw (search, y, lt) at e)
        | inr c ↦ elim c [
          | inl eq ↦
              let same =
                some-injective mid k
                  (some-injective (some mid) (some k) (rw (search, y, eq) at e)) in
              subst (λ i. (name_at names i ≡ name) × (i < last)) same
                (strcmp_eq (name_at names mid) name eq, below)
          | inr gt ↦
              let (n, b) = search_sound fuel names name first mid k (rw (search, y, gt) at e) in
              (n, omega (arith, b, below))
        ]
      ]
]

-- The search ends.
search_ends :
    (fuel : ℕ) (names : List (List ℕ)) (name : List ℕ) (first last : ℕ)
    → first ≤ last
    → last < first + fuel
    → (r : Option ℕ) × (search fuel names name first last ≡ some r)
unfolding search
search_ends zero names name first last l f = absurd (omega (arith, l, f))
search_ends (suc fuel) names name first last l f = elim (Bool-cases (ltb first last)) [
  | inr n ↦ (none, rw (search, n) refl)
  | inl y ↦
      let mid = (first + (last - 1)) / 2 in
      elim (Ordering-cases (strcmp (name_at names mid) name)) [
        | inl lt ↦
            let (r, e) =
              search_ends fuel names name (mid + 1) last (omega (arith, ltb→lt first last y))
                (omega (arith, f, ltb→lt first last y)) in
            (r, rw (search, y, lt) e)
        | inr c ↦ elim c [
          | inl eq ↦ (some mid, rw (search, y, eq) refl)
          | inr gt ↦
              let (r, e) =
                search_ends fuel names name first mid (omega (arith, l, ltb→lt first last y))
                  (omega (arith, f, ltb→lt first last y)) in
              (r, rw (search, y, gt) e)
        ]
      ]
]

-- In a table that is sorted by name `amx_FindPublic` ends, with the index of the function that has the
-- name, and with AMX_ERR_NOTFOUND and INT_MAX exactly if there is none.
pub amx_FindPublic-get_elem :
    (names : List (List ℕ)) (name : List ℕ)
    → IsSorted names
    → ((k : ℕ) × (((k < length names) × (name_at names k ≡ name))
          × (amx_FindPublic names name ≡ some (err_none, k))))
      ⊎ (((k : ℕ) → k < length names → name_at names k ≢ name)
          × (amx_FindPublic names name ≡ some (err_notfound, int_max)))
unfolding amx_FindPublic
amx_FindPublic-get_elem names name s =
    let n = length names in
    let (r, e) = search_ends (n + 1) names name 0 n (omega arith) (omega arith) in
    elim (Option-cases r) [
      | inl q ↦
          let none_found : search (n + 1) names name 0 n ≡ some none = e ∙ ap (λ o. some o) q in
          inr (
            λ k h same.
                let hit =
                  search_hit (n + 1) names 0 n k s (omega arith) h (omega arith) (omega arith) in
                let hit' = subst (λ m. search (n + 1) names m 0 n ≡ some (some k)) same hit in
                cc (some-injective none (some k) (sym none_found ∙ hit')),
            rw (amx_FindPublic, none_found) refl,
          )
      | inr (k, q) ↦
          let found_k : search (n + 1) names name 0 n ≡ some (some k) = e ∙ ap (λ o. some o) q in
          let (same, h) = search_sound (n + 1) names name 0 n k found_k in
          inl (k, ((h, same), rw (amx_FindPublic, found_k) refl))
    ]
