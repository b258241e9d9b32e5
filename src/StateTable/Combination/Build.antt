-- ===== src/StateTable/Combination/Build.antt =====
-- `state_buildlist` of scstate.c against the insertion into a sorted list.
use mathlib.Core.List.{append_assoc, append-nil}
use pawn_x.Prelude.{
  ℕ, zero, suc, ◌+◌, ◌-◌, ◌≤◌, ◌<◌, ◌≡◌, ◌≢◌, inl, inr, refl, ap, arith, true, false, ◌&&◌, ltb,
  leb, ◌==◌, if◌then◌else◌, List, [], ◌∷◌, ◌++◌, none, some, Bool-cases, length, tests, ◌∙◌, set,
  take, drop, length-append,
}
use pawn_x.StateTable.Combination.{memmove, find_place, place_state, state_buildlist}

-- Insertion into a sorted list, before the first item that is not below `x`.
pub insert : ℕ → List ℕ → List ℕ
insert x [] = x ∷ []
insert x (y ∷ ys) = if ltb y x then y ∷ insert x ys else x ∷ y ∷ ys

-- The place is within the items in use.
find_place-le : (xs : List ℕ) (count x : ℕ) → find_place xs count x ≤ count
unfolding find_place
find_place-le [] count x = omega arith
find_place-le (y ∷ ys) zero x = omega arith
find_place-le (y ∷ ys) (suc count) x = ground (arith, find_place-le ys count x)

take_used :
    (u : List ℕ) (s : ℕ) (sp : List ℕ) → take (suc (length u)) (u ++ (s ∷ sp)) ≡ u ++ (s ∷ [])
take_used [] s sp = refl
take_used (y ∷ u) s sp = ap (λ t. y ∷ t) (take_used u s sp)

drop_used :
    (u : List ℕ) (s t : ℕ) (sp : List ℕ) → drop (suc (suc (length u))) (u ++ (s ∷ t ∷ sp)) ≡ sp
drop_used [] s t sp = refl
drop_used (y ∷ u) s t sp = drop_used u s t sp

suc_sub : (m k : ℕ) → suc m - suc k ≡ m - k
suc_sub m k = omega arith

sub_zero : (m : ℕ) → m - 0 ≡ m
sub_zero m = omega arith

-- What the move of the tail leaves.
abbrev moved : List ℕ → ℕ → ℕ → List ℕ
moved xs n i = take (suc i) xs ++ (take (suc (n - i)) (drop i xs) ++ drop (suc (suc n)) xs)

-- Moving the tail up and writing at the place is an insertion into the items in use; the first
-- item behind them goes over the second.
shifted :
    (u : List ℕ) (s t : ℕ) (sp : List ℕ) (x : ℕ)
    → let xs = u ++ (s ∷ t ∷ sp) in
      let i = find_place xs (length u) x in set (moved xs (length u) i) i x ≡ insert x u ++ (s ∷ sp)
unfolding find_place insert
shifted [] s t sp x = refl
shifted (y ∷ u) s t sp x = elim (Bool-cases (ltb y x)) [
  | inl l ↦ rw l (ap (λ t. y ∷ t) (rw suc_sub (shifted u s t sp x)))
  | inr l ↦ rw l (rw (sub_zero, take_used u s (t ∷ sp), drop_used u s t sp, append_assoc) refl)
]

-- With every item in use below the new one, the place is behind them.
appended :
    (u : List ℕ) (s : ℕ) (sp : List ℕ) (x : ℕ)
    → find_place (u ++ (s ∷ sp)) (length u) x ≡ length u
    → set (u ++ (s ∷ sp)) (length u) x ≡ insert x u ++ sp
unfolding find_place insert
appended [] s sp x h = refl
appended (y ∷ u) s sp x h = ground (arith, appended u s sp x)

-- The search for the place looks at the items in use alone.
place_used : (u sp : List ℕ) (x : ℕ) → find_place (u ++ sp) (length u) x ≡ find_place u (length u) x
unfolding find_place
place_used [] [] x = refl
place_used [] (s ∷ sp) x = refl
place_used (y ∷ u) sp x = ground (arith, place_used u sp x)

moved_lem :
    (xs : List ℕ) (n i : ℕ)
    → i < n
    → take (i + 1) xs ++ (take (n - i + 1) (drop i xs) ++ drop (i + 1 + (n - i + 1)) xs)
      ≡ moved xs n i
moved_lem xs n i h =
    let e₁ : i + 1 ≡ suc i = omega arith in
    let e₂ : n - i + 1 ≡ suc (n - i) = omega arith in
    let e₃ : i + 1 + (n - i + 1) ≡ suc (suc n) = omega arith in cc (e₁, e₂, e₃)

behind :
    (u : List ℕ) (s : ℕ) (sp : List ℕ) (x : ℕ)
    → find_place (u ++ (s ∷ sp)) (length u) x ≡ length u
    → set (u ++ (s ∷ sp)) (find_place (u ++ (s ∷ sp)) (length u) x) x ≡ insert x u ++ sp
behind u s sp x e = rw e (appended u s sp x e)

-- Two or more items behind those in use are room enough.
place_state_room :
    (u : List ℕ) (s t : ℕ) (sp : List ℕ) (x : ℕ)
    → (rest : List ℕ) × (place_state (u ++ (s ∷ t ∷ sp)) (length u) x
        ≡ some (insert x u ++ rest, length u + 1))
unfolding place_state memmove
place_state_room u s t sp x =
    let xs = u ++ (s ∷ t ∷ sp) in
    let i = find_place xs (length u) x in
    elim (Bool-cases (ltb i (length u))) [
      | inl l ↦
          let fits : (leb (i + 1 + (length u - i + 1)) (length xs)
                && leb (i + (length u - i + 1)) (length xs))
              ≡ true =
            ground (arith, length-append u (s ∷ t ∷ sp)) in
          (
            s ∷ sp,
            rw (l, fits)
                (ap (λ b. some (b, length u + 1))
                  (ap (λ b. set b i x) (moved_lem xs (length u) i (omega tests))
                    ∙ shifted u s t sp x)),
          )
      | inr l ↦
          let e : i ≡ length u = ground (arith, find_place-le xs (length u) x) in
          (t ∷ sp, rw l (ap (λ b. some (b, length u + 1)) (behind u s (t ∷ sp) x e)))
    ]

-- With room for two more states behind the `length u` in use, or with no room, when it takes four
-- more, `state_buildlist` writes within the list, inserts the state in its place among those in
-- use, and counts it.
pub state_buildlist-insert :
    (u sp : List ℕ) (x junk : ℕ)
    → length sp ≢ 1
    → (rest : List ℕ) × (state_buildlist (u ++ sp) (length u) x junk
        ≡ some (insert x u ++ rest, length u + 1))
unfolding state_buildlist
state_buildlist-insert u [] x junk h =
    let full : (length u == length (u ++ [])) ≡ true = ground (arith, length-append u []) in
    rw (full, append-nil) (place_state_room u junk junk (junk ∷ junk ∷ []) x)
state_buildlist-insert u (s ∷ []) x junk h = absurd (h refl)
state_buildlist-insert u (s ∷ t ∷ sp) x junk h =
    let room : (length u == length (u ++ (s ∷ t ∷ sp))) ≡ false =
      ground (arith, length-append u (s ∷ t ∷ sp)) in
    rw room (place_state_room u s t sp x)

-- With room for one more state, and one in use that is not below the new one, the `memmove` of
-- `state_buildlist` writes past the end of the list.
pub state_buildlist_overflow :
    (u : List ℕ) (s x junk : ℕ)
    → find_place u (length u) x < length u
    → state_buildlist (u ++ (s ∷ [])) (length u) x junk ≡ none
unfolding state_buildlist place_state memmove
state_buildlist_overflow u s x junk h =
    let room : (length u == length (u ++ (s ∷ []))) ≡ false =
      ground (arith, length-append u (s ∷ [])) in
    let i = find_place (u ++ (s ∷ [])) (length u) x in
    let inside : ltb i (length u) ≡ true = ground (arith, place_used u (s ∷ []) x) in
    let out : leb (i + 1 + (length u - i + 1)) (length (u ++ (s ∷ []))) ≡ false =
      ground (arith, length-append u (s ∷ []), place_used u (s ∷ []) x) in
    rw (room, inside, out)
