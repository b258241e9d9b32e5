-- ===== src/StateTable.antt =====
-- The automata, states and state combinations of compiler/source/compiler/scstate.c. The linked
-- lists are lists: `append_constval` adds at the end, and `state_addlist` at the front. Ids are
-- natural numbers: the code makes them from 1 up, and where it asserts that they fit a `short`, `none`
-- is a failed assertion. A failed allocation ends the compiler (error 103) and is left out.
pub mod Automata
pub mod States
pub mod Combination
mod Tests
use text.Mathlib.Text.{◌==◌ as str_eq}
use Prim.Native.String.{String}
use pawn_x.Prelude.{
  ℕ, ◌+◌, Bool, true, false, ◌&&◌, ltb, leb, ◌==◌, if◌then◌else◌, List, [], ◌∷◌, ◌++◌, Option, none,
  some, length,
}
use pawn_x.Prelude.Chars.{codes}

-- `constvalue`: for an automaton `index` is its id; for a state `index` is its automaton and
-- `value` its id.
pub record ConstValue : Type 0 where
  pub name : String
  pub value : ℕ
  pub index : ℕ

-- `if (ptr->index>*last) *last=ptr->index;`
abbrev pub raise : ℕ → ℕ → ℕ
raise last n = if ltb last n then n else last

-- `find_automaton`: the entry found, and `*last`.
pub find_automaton : String → ℕ → List ConstValue → Option ConstValue × ℕ
find_automaton name last [] = (none, last)
find_automaton name last (c ∷ cs) =
    let rest = find_automaton name (raise last c.index) cs in
    if str_eq name c.name then (some c, last) else rest

-- `SHRT_MAX`
abbrev pub shrt_max : ℕ
shrt_max = 32767

-- `sNAMEMAX`
abbrev pub name_max : ℕ
name_max = 63

-- `strlen(name)<arraysize(ptr->name)`
abbrev pub fits : String → Bool
fits name = ltb (length (codes name)) (name_max + 1)

-- A new entry at the end of the table, if its index is a `short`.
abbrev pub append_entry :
    Bool → ConstValue → List ConstValue → Option (ConstValue × List ConstValue)
append_entry true c tab = some (c, tab ++ (c ∷ []))
append_entry false c tab = none

-- `automaton_add`: the entry, and `sc_automaton_tab`.
pub automaton_add : String → List ConstValue → Option (ConstValue × List ConstValue)
unfolding find_automaton
automaton_add name tab =
    let (found, last) = find_automaton name 0 tab in
    if fits name
    then elim found [
      | some c ↦ some (c, tab)
      | none ↦
          append_entry (leb (last + 1) shrt_max)
            (record { name = name; value = 0; index = last + 1 }) tab
    ]
    else none

-- `automaton_find`
pub automaton_find : String → List ConstValue → Option ConstValue
unfolding find_automaton
automaton_find name tab = (find_automaton name 0 tab).0

-- `automaton_findid`
pub automaton_findid : ℕ → List ConstValue → Option ConstValue
automaton_findid id [] = none
automaton_findid id (c ∷ cs) = if c.index == id then some c else automaton_findid id cs

-- `find_state`: among the states of automaton `fsa`.
pub find_state : String → ℕ → ℕ → List ConstValue → Option ConstValue × ℕ
find_state name fsa last [] = (none, last)
find_state name fsa last (c ∷ cs) =
    let rest = find_state name fsa (if c.index == fsa then raise last c.value else last) cs in
    if (c.index == fsa) && str_eq name c.name then (some c, last) else rest

-- `state_add`
pub state_add : String → ℕ → List ConstValue → Option (ConstValue × List ConstValue)
unfolding find_state
state_add name fsa tab =
    let (found, last) = find_state name fsa 0 tab in
    if fits name
    then elim found [
      | some c ↦ some (c, tab)
      | none ↦
          append_entry (leb fsa shrt_max) (record { name = name; value = last + 1; index = fsa })
            tab
    ]
    else none

-- `state_find`
pub state_find : String → ℕ → List ConstValue → Option ConstValue
unfolding find_state
state_find name fsa tab = (find_state name fsa 0 tab).0

-- `state_findid`
pub state_findid : ℕ → List ConstValue → Option ConstValue
state_findid id [] = none
state_findid id (c ∷ cs) = if c.value == id then some c else state_findid id cs
