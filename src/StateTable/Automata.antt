-- ===== src/StateTable/Automata.antt =====
-- The table of automata of scstate.c: `automaton_add`, `automaton_find` and `automaton_findid`.
use text.Mathlib.Text.{◌==◌ as str_eq}
use text.Mathlib.TextEquality.{eq_iff}
use Prim.Native.String.{String}
use mathlib.Core.Path.{subst}
use pawn_x.Prelude.{
  ℕ, ◌+◌, ◌≤◌, ◌<◌, length, true, leb, ◌≡◌, ◌≢◌, ◌⊎◌, inl, inr, refl, ap, arith, List, [], ◌∷◌,
  ◌++◌, none, some, Bool-cases, Option-cases, All, All-map, AllPairs, AllPairs-append,
}
use pawn_x.Prelude.Chars.{codes}
use pawn_x.StateTable.{
  ConstValue, shrt_max, name_max, fits, raise, find_automaton, automaton_add, automaton_find,
  automaton_findid,
}

-- No two automata share an id or a name.
abbrev pub IsDistinct : List ConstValue → Type 0
IsDistinct = AllPairs (λ c d. (c.index ≢ d.index) × (c.name ≢ d.name))

abbrev Bounded : ℕ → String → List ConstValue → Type 0
Bounded last name = All (λ d. (d.index ≤ last) × (d.name ≢ name))

-- A search that fails has seen every id and every name.
find_automaton_miss :
    (name : String) (last : ℕ) (tab : List ConstValue)
    → (find_automaton name last tab).0 ≡ none
    → (last ≤ (find_automaton name last tab).1) × Bounded (find_automaton name last tab).1 name tab
unfolding find_automaton
find_automaton_miss name last [] h = (omega arith, tt)
find_automaton_miss name last (c ∷ cs) h =
    ground (arith, eq_iff name c.name, find_automaton_miss name (raise last c.index) cs)

find_automaton-append :
    (name : String) (last last' : ℕ) (tab : List ConstValue) (c : ConstValue)
    → c.name ≡ name
    → (find_automaton name last tab).0 ≡ none
    → (find_automaton name last' (tab ++ (c ∷ []))).0 ≡ some c
unfolding find_automaton
find_automaton-append name last last' [] c e h = ground (arith, eq_iff name c.name)
find_automaton-append name last last' (d ∷ ds) c e h =
    ground (arith, find_automaton-append name (raise last d.index) (raise last' d.index) ds c)

-- An id that no entry shares is found at its entry.
findid-append :
    (tab : List ConstValue) (c : ConstValue)
    → All (λ d. d.index ≢ c.index) tab
    → automaton_findid c.index (tab ++ (c ∷ [])) ≡ some c
unfolding automaton_findid
findid-append [] c h = ground arith
findid-append (d ∷ ds) c h = ground (arith, findid-append ds c h.1)

-- What holds of every entry holds of the one found.
find_automaton-All :
    (P : ConstValue → Type 0) (name : String) (last : ℕ) (tab : List ConstValue) (c : ConstValue)
    → All P tab
    → (find_automaton name last tab).0 ≡ some c
    → P c
unfolding find_automaton
find_automaton-All P name last [] c a h = cc
find_automaton-All P name last (d ∷ ds) c a h = elim (Bool-cases (str_eq name d.name)) [
  | inl t ↦ subst P (cc (rw t at h)) a.0
  | inr f ↦ find_automaton-All P name (raise last d.index) ds c a.1 (rw f at h)
]

find_automaton_named :
    (name : String) (last : ℕ) (tab : List ConstValue) (c : ConstValue)
    → (find_automaton name last tab).0 ≡ some c
    → c.name ≡ name
unfolding find_automaton
find_automaton_named name last [] c h = cc
find_automaton_named name last (d ∷ ds) c h =
    ground (arith, eq_iff name d.name, find_automaton_named name (raise last d.index) ds c)

-- Where a name is found, the entry's id finds it too.
find_automaton-findid :
    (name : String) (last : ℕ) (tab : List ConstValue) (c : ConstValue)
    → IsDistinct tab
    → (find_automaton name last tab).0 ≡ some c
    → automaton_findid c.index tab ≡ some c
unfolding find_automaton automaton_findid
find_automaton-findid name last [] c u h = cc
find_automaton-findid name last (d ∷ ds) c u h = elim (Bool-cases (str_eq name d.name)) [
  | inl t ↦ let e : d ≡ c = cc (rw t at h) in ground (arith, ap (λ (x : ConstValue). x.index) e)
  | inr f ↦
      let here = rw f at h in
      let apart =
        find_automaton-All (λ x. (d.index ≢ x.index) × (d.name ≢ x.name)) name (raise last d.index)
          ds c u.0 here in
      ground (arith, apart.0, find_automaton-findid name (raise last d.index) ds c u.1 here)
]

-- The contract of `automaton_add`: the entry `r.0`, and the table `r.1` behind the call.
pub record Added (name : String) (tab : List ConstValue) (r : ConstValue × List ConstValue)
    : Type 0 where
  pub named : r.0.name ≡ name
  pub distinct : IsDistinct r.1
  pub by_name : automaton_find name r.1 ≡ some r.0
  pub by_id : automaton_findid r.0.index r.1 ≡ some r.0
  pub kept :
      ((automaton_find name tab ≡ some r.0) × (r.1 ≡ tab))
      ⊎ ((automaton_find name tab ≡ none) × (r.1 ≡ tab ++ (r.0 ∷ [])))

find_automaton_below :
    (name : String) (last : ℕ) (tab : List ConstValue)
    → last < shrt_max
    → All (λ d. d.index < shrt_max) tab
    → (find_automaton name last tab).1 < shrt_max
unfolding find_automaton
find_automaton_below name last [] h a = h
find_automaton_below name last (c ∷ cs) h a =
    let more = find_automaton_below name (raise last c.index) cs (ground arith) a.1 in
    elim (Bool-cases (str_eq name c.name)) [ inl t ↦ rw t h | inr f ↦ rw f more ]

-- With a name that fits its field, and a table without double names and ids whose ids are below
-- SHRT_MAX, `automaton_add` passes its assertions and returns an entry of the name, which the table
-- then holds under its name and id; the table stays free of doubles and grows only by a new name.
pub automaton_add-Added :
    (name : String) (tab : List ConstValue)
    → length (codes name) ≤ name_max
    → IsDistinct tab
    → All (λ d. d.index < shrt_max) tab
    → (r : ConstValue × List ConstValue) × ((automaton_add name tab ≡ some r) × Added name tab r)
unfolding automaton_add automaton_find
automaton_add-Added name tab long u small =
    let fit : fits name ≡ true = ground arith in
    elim (Option-cases (find_automaton name 0 tab).0) [
      | inl missed ↦
          let (low, bounded) = find_automaton_miss name 0 tab missed in
          let c : ConstValue = record {
            name = name;
            value = 0;
            index = (find_automaton name 0 tab).1 + 1;
          } in
          let short : leb ((find_automaton name 0 tab).1 + 1) shrt_max ≡ true =
            ground (arith, find_automaton_below name 0 tab (omega arith) small) in
          (
            (c, tab ++ (c ∷ [])),
            (
              rw (automaton_add, fit, missed, short) refl,
              record {
                named = refl;
                distinct =
                    AllPairs-append (λ c d. (c.index ≢ d.index) × (c.name ≢ d.name)) tab c
                      (All-map (λ d. (d.index ≤ (find_automaton name 0 tab).1) × (d.name ≢ name))
                        (λ d. (d.index ≢ c.index) × (d.name ≢ c.name))
                        (λ d h. (omega (arith, h.0), h.1)) tab bounded)
                      u;
                by_name = find_automaton-append name 0 0 tab c refl missed;
                by_id = findid-append tab c (
                    All-map (λ d. (d.index ≤ (find_automaton name 0 tab).1) × (d.name ≢ name))
                      (λ d. d.index ≢ c.index) (λ d h. omega (arith, h.0)) tab bounded);
                kept = inr (missed, refl);
              },
            ),
          )
      | inr (c, hit) ↦ (
        (c, tab),
        (
          rw (automaton_add, fit, hit) refl,
          record {
            named = find_automaton_named name 0 tab c hit;
            distinct = u;
            by_name = hit;
            by_id = find_automaton-findid name 0 tab c u hit;
            kept = inl (hit, refl);
          },
        ),
      )
    ]
