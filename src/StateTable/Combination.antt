-- ===== src/StateTable/Combination.antt =====
-- The state combinations of scstate.c: sorted lists of states, each with an automaton and a unique
-- id, and the buffer in which the parser builds such a list.
pub mod Build
pub mod Ids
pub mod Conflict
mod Tests
use mathlib.Core.Option
use pawn_x.Prelude.{
  ℕ, zero, suc, ◌+◌, ◌-◌, Bool, true, false, ◌&&◌, ◌||◌, ltb, leb, ◌==◌, if◌then◌else◌, List, [],
  ◌∷◌, ◌++◌, Option, none, some, length, get_elem?, set, take, drop, replicate,
}
use pawn_x.StateTable.{raise}

-- `memmove` of `n` items from index `from` to index `to` of an array; `none` where it would leave
-- the array.
pub memmove : List ℕ → ℕ → ℕ → ℕ → Option (List ℕ)
memmove buf to from n =
    if leb (to + n) (length buf) && leb (from + n) (length buf)
    then some (take to buf ++ (take n (drop from buf) ++ drop (to + n) buf))
    else none

-- The loop for the insertion point.
pub find_place : List ℕ → ℕ → ℕ → ℕ
find_place [] count stateid = 0
find_place (x ∷ xs) zero stateid = 0
find_place (x ∷ xs) (suc count) stateid =
    if ltb x stateid then suc (find_place xs count stateid) else 0

-- The item at the place, and the count behind it.
abbrev pub put : ℕ → ℕ → ℕ → List ℕ → List ℕ × ℕ
put idx count stateid buf = (set buf idx stateid, count + 1)

-- `state_buildlist` behind the growing of the list: the place, the `memmove` and the write.
pub place_state : List ℕ → ℕ → ℕ → Option (List ℕ × ℕ)
unfolding memmove find_place
place_state buf count stateid =
    let idx = find_place buf count stateid in
    if ltb idx count
    then Option.map (put idx count stateid) (memmove buf (idx + 1) idx (count - idx + 1))
    else some (put idx count stateid buf)

-- `state_buildlist`: `*list` with its `*listsize` items, and `*count`. What `realloc` leaves in the
-- four new items is `junk`. The result is the list and the count; `none` is a write past the list.
pub state_buildlist : List ℕ → ℕ → ℕ → ℕ → Option (List ℕ × ℕ)
unfolding place_state
state_buildlist buf count stateid junk =
    place_state (if count == length buf then buf ++ replicate 4 junk else buf) count stateid

-- `statelist`; `numstates` is the length of `states`.
pub record StateList : Type 0 where
  pub states : List ℕ
  pub fsa : ℕ
  pub listid : ℕ

-- The comparison of two lists of states, `ptr->numstates==count` included.
pub same_states : List ℕ → List ℕ → Bool
same_states [] [] = true
same_states [] (y ∷ ys) = false
same_states (x ∷ xs) [] = false
same_states (x ∷ xs) (y ∷ ys) = (x == y) && same_states xs ys

-- `state_findlist`: the entry found, and `*last`.
pub state_findlist : List ℕ → ℕ → ℕ → List StateList → Option StateList × ℕ
unfolding same_states
state_findlist list fsa last [] = (none, last)
state_findlist list fsa last (p ∷ ps) =
    let rest = state_findlist list fsa (raise last p.listid) ps in
    if (p.fsa == fsa) && same_states p.states list then (some p, raise last p.listid) else rest

-- `state_getlist_ptr`
pub state_getlist_ptr : ℕ → List StateList → Option StateList
state_getlist_ptr id [] = none
state_getlist_ptr id (p ∷ ps) = if p.listid == id then some p else state_getlist_ptr id ps

-- `state_addlist`: the id, and `statelist_tab`.
pub state_addlist : List ℕ → ℕ → List StateList → ℕ × List StateList
unfolding state_findlist
state_addlist list fsa tab =
    let (found, last) = state_findlist list fsa 0 tab in
    elim found [
      | some p ↦ (p.listid, tab)
      | none ↦ (last + 1, record { states = list; fsa = fsa; listid = last + 1 } ∷ tab)
    ]

-- `state_deletetable`
pub state_deletetable : List StateList → List StateList
state_deletetable [] = []
state_deletetable (p ∷ ps) = state_deletetable ps

-- `state_getfsa`; `none` is -1.
pub state_getfsa : ℕ → List StateList → Option ℕ
unfolding state_getlist_ptr
state_getfsa id tab =
    if id == 0 then none else elim (state_getlist_ptr id tab) [ none ↦ none | some p ↦ some p.fsa ]

-- `state_count`
pub state_count : ℕ → List StateList → ℕ
unfolding state_getlist_ptr
state_count id tab = elim (state_getlist_ptr id tab) [ none ↦ 0 | some p ↦ length p.states ]

-- Whether a state stands in a list.
pub has_state : ℕ → List ℕ → Bool
has_state state [] = false
has_state state (x ∷ xs) = (x == state) || has_state state xs

-- `state_inlist`
pub state_inlist : ℕ → ℕ → List StateList → Bool
unfolding state_getlist_ptr has_state
state_inlist id state tab = elim (state_getlist_ptr id tab) [
  | none ↦ false
  | some p ↦ has_state state p.states
]

-- `state_listitem`; `none` is a failed assertion.
pub state_listitem : ℕ → ℕ → List StateList → Option ℕ
unfolding state_getlist_ptr
state_listitem id index tab = elim (state_getlist_ptr id tab) [
  | none ↦ none
  | some p ↦ get_elem? p.states index
]

-- `checkconflict` on the two lists of states.
pub checkconflict : List ℕ → List ℕ → Bool
unfolding has_state
checkconflict [] ys = false
checkconflict (x ∷ xs) ys = has_state x ys || checkconflict xs ys

-- `state_conflict_id`; `none` is a failed assertion.
pub state_conflict_id : ℕ → ℕ → List StateList → Option Bool
unfolding state_getlist_ptr checkconflict
state_conflict_id id₁ id₂ tab = elim (state_getlist_ptr id₁ tab) [
  | none ↦ none
  | some p ↦ elim (state_getlist_ptr id₂ tab) [
    | none ↦ none
    | some q ↦ some (checkconflict p.states q.states)
  ]
]
