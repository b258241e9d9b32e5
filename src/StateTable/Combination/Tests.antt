-- ===== src/StateTable/Combination/Tests.antt =====
-- State combinations at concrete tables.
use pawn_x.Prelude.{ℕ, ◌<◌, ◌≡◌, ◌⊎◌, ◌++◌, none, some, List, [], ◌∷◌, true, false, refl, arith}
use pawn_x.StateTable.Combination.{
  StateList, find_place, state_buildlist, same_states, state_findlist, state_getlist_ptr,
  state_addlist, state_deletetable, state_listitem, state_inlist, has_state, checkconflict,
  state_conflict_id,
}
use pawn_x.StateTable.Combination.Ids
use pawn_x.StateTable.Combination.Ids.{
  Shares, state_addlist-Added, state_conflict_id-Shares, queries-state_addlist,
}
use pawn_x.StateTable.Combination.Build.{insert, state_buildlist-insert, state_buildlist_overflow}

abbrev combinations : List StateList
combinations = (state_addlist (2 ∷ 3 ∷ []) 2 (state_addlist (1 ∷ 2 ∷ []) 2 []).1).1

none-IsValid : Ids.IsValid []
none-IsValid = record { distinct = tt; positive = tt }

combinations-IsValid : Ids.IsValid combinations
combinations-IsValid =
    (state_addlist-Added (2 ∷ 3 ∷ []) 2 (state_addlist (1 ∷ 2 ∷ []) 2 []).1
      (state_addlist-Added (1 ∷ 2 ∷ []) 2 [] none-IsValid).valid).valid

items :
    (state_listitem 1 1 combinations ≡ some 2)
    × (state_listitem 1 2 combinations ≡ none)
    × (state_inlist 2 3 combinations ≡ true)
    × (state_conflict_id 1 2 combinations ≡ some true)
    × (state_deletetable combinations ≡ [])
unfolding state_listitem state_inlist state_conflict_id state_addlist state_findlist
    state_getlist_ptr same_states checkconflict has_state state_deletetable
items = (refl, refl, refl, refl, refl)

state_addlist-Added_example :
    Ids.Added (3 ∷ []) 2 combinations (state_addlist (3 ∷ []) 2 combinations)
state_addlist-Added_example = state_addlist-Added (3 ∷ []) 2 combinations combinations-IsValid

abbrev pair : ℕ → List ℕ → StateList
pair id xs = record { states = xs; fsa = 2; listid = id }

looked_up :
    (state_getlist_ptr 1 combinations ≡ some (pair 1 (1 ∷ 2 ∷ [])))
    × (state_getlist_ptr 2 combinations ≡ some (pair 2 (2 ∷ 3 ∷ [])))
unfolding state_addlist state_findlist state_getlist_ptr same_states
looked_up = (refl, refl)

state_conflict_id-Shares_example :
    ((state_conflict_id 1 2 combinations ≡ some true) × Shares (1 ∷ 2 ∷ []) (2 ∷ 3 ∷ []))
    ⊎ ((state_conflict_id 1 2 combinations ≡ some false) × (¬ (Shares (1 ∷ 2 ∷ []) (2 ∷ 3 ∷ []))))
state_conflict_id-Shares_example =
    state_conflict_id-Shares 1 2 (pair 1 (1 ∷ 2 ∷ [])) (pair 2 (2 ∷ 3 ∷ [])) combinations
      looked_up.0 looked_up.1

state_buildlist-insert_example :
    (rest : List ℕ) × (state_buildlist (1 ∷ 4 ∷ 9 ∷ 9 ∷ []) 2 3 0
      ≡ some (insert 3 (1 ∷ 4 ∷ []) ++ rest, 3))
state_buildlist-insert_example = state_buildlist-insert (1 ∷ 4 ∷ []) (9 ∷ 9 ∷ []) 3 0 (omega arith)

first_place : find_place (1 ∷ 4 ∷ 6 ∷ []) 3 3 < 3
unfolding find_place
first_place = omega arith

state_buildlist_overflow_example : state_buildlist (1 ∷ 4 ∷ 6 ∷ 9 ∷ []) 3 3 0 ≡ none
state_buildlist_overflow_example = state_buildlist_overflow (1 ∷ 4 ∷ 6 ∷ []) 9 3 0 first_place
