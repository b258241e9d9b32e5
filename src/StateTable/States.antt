-- ===== src/StateTable/States.antt =====
-- The table of states of scstate.c: `state_add` and `state_find`.
use text.Mathlib.TextEquality.{eq_iff}
use Prim.Native.String.{String}
use pawn_x.Prelude.{
  ℕ, ◌+◌, length, true, leb, ◌≤◌, ◌<◌, ◌≡◌, ◌≢◌, ◌⊎◌, inl, inr, refl, arith, ◌==◌, if◌then◌else◌,
  List, [], ◌∷◌, ◌++◌, none, some, Option-cases, All, All-map, AllPairs, AllPairs-append,
}
use pawn_x.Prelude.Chars.{codes}
use pawn_x.StateTable.{
  ConstValue, shrt_max, name_max, fits, raise, find_state, state_add, state_find,
}

-- Two states differ in their automaton, or in both id and name.
abbrev pub Differ : ConstValue → ConstValue → Type 0
Differ c d = (c.index ≢ d.index) ⊎ ((c.value ≢ d.value) × (c.name ≢ d.name))

-- No two states of one automaton share an id or a name.
abbrev pub IsDistinct : List ConstValue → Type 0
IsDistinct = AllPairs Differ

-- What a failed search knows of an entry.
abbrev Other : ℕ → ℕ → String → ConstValue → Type 0
Other last fsa name d = (d.index ≢ fsa) ⊎ ((d.value ≤ last) × (d.name ≢ name))

abbrev next_last : ℕ → ℕ → ConstValue → ℕ
next_last last fsa c = if c.index == fsa then raise last c.value else last

find_state_miss :
    (name : String) (fsa last : ℕ) (tab : List ConstValue)
    → (find_state name fsa last tab).0 ≡ none
    → (last ≤ (find_state name fsa last tab).1)
      × All (Other (find_state name fsa last tab).1 fsa name) tab
unfolding find_state
find_state_miss name fsa last [] h = (omega arith, tt)
find_state_miss name fsa last (c ∷ cs) h =
    ground (arith, eq_iff name c.name, find_state_miss name fsa (next_last last fsa c) cs)

find_state-append :
    (name : String) (fsa last last' : ℕ) (tab : List ConstValue) (c : ConstValue)
    → c.name ≡ name
    → c.index ≡ fsa
    → (find_state name fsa last tab).0 ≡ none
    → (find_state name fsa last' (tab ++ (c ∷ []))).0 ≡ some c
unfolding find_state
find_state-append name fsa last last' [] c e i h = ground (arith, eq_iff name c.name)
find_state-append name fsa last last' (d ∷ ds) c e i h =
    ground (arith, find_state-append name fsa (next_last last fsa d) (next_last last' fsa d) ds c)

find_state_named :
    (name : String) (fsa last : ℕ) (tab : List ConstValue) (c : ConstValue)
    → (find_state name fsa last tab).0 ≡ some c
    → (c.name ≡ name) × (c.index ≡ fsa)
unfolding find_state
find_state_named name fsa last [] c h = cc
find_state_named name fsa last (d ∷ ds) c h =
    ground (arith, eq_iff name d.name, find_state_named name fsa (next_last last fsa d) ds c)

-- The contract of `state_add`: the entry has the name and the automaton, and the table holds it
-- under its name. The table stays free of double names and ids within an automaton, and is the old
-- one, or the old one with the entry at its end; the latter only if the name was new there.
pub record Added (name : String) (fsa : ℕ) (tab : List ConstValue)
    (r : ConstValue × List ConstValue) : Type 0 where
  pub named : (r.0.name ≡ name) × (r.0.index ≡ fsa)
  pub distinct : IsDistinct r.1
  pub by_name : state_find name fsa r.1 ≡ some r.0
  pub kept :
      ((state_find name fsa tab ≡ some r.0) × (r.1 ≡ tab))
      ⊎ ((state_find name fsa tab ≡ none) × (r.1 ≡ tab ++ (r.0 ∷ [])) × (0 < r.0.value))

-- With a name that fits its field, an automaton up to SHRT_MAX, and a table without double names
-- and ids in an automaton, `state_add` passes its assertions and returns an entry of the name and
-- automaton, which the table then holds; the table stays free of doubles and grows only by a new
-- name, with an id from 1 up.
pub state_add-Added :
    (name : String) (fsa : ℕ) (tab : List ConstValue)
    → length (codes name) ≤ name_max
    → fsa ≤ shrt_max
    → IsDistinct tab
    → (r : ConstValue × List ConstValue) × ((state_add name fsa tab ≡ some r)
        × Added name fsa tab r)
unfolding state_add state_find
state_add-Added name fsa tab long short u =
    let fit : fits name ≡ true = ground arith in
    let inside : leb fsa shrt_max ≡ true = ground arith in
    elim (Option-cases (find_state name fsa 0 tab).0) [
      | inl missed ↦
          let last = (find_state name fsa 0 tab).1 in
          let (low, others) = find_state_miss name fsa 0 tab missed in
          let c : ConstValue = record { name = name; value = last + 1; index = fsa } in
          (
            (c, tab ++ (c ∷ [])),
            (
              rw (state_add, fit, missed, inside) refl,
              record {
                named = (refl, refl);
                distinct =
                    AllPairs-append Differ tab c
                      (All-map (Other last fsa name) (λ d. Differ d c)
                        (λ d h. elim h [ inl q ↦ inl q | inr q ↦ inr (omega (arith, q.0), q.1) ])
                        tab others)
                      u;
                by_name = find_state-append name fsa 0 0 tab c refl refl missed;
                kept = inr (missed, refl, omega arith);
              },
            ),
          )
      | inr (c, hit) ↦ (
        (c, tab),
        (
          rw (state_add, fit, hit) refl,
          record {
            named = find_state_named name fsa 0 tab c hit;
            distinct = u;
            by_name = hit;
            kept = inl (hit, refl);
          },
        ),
      )
    ]
