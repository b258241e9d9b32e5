-- ===== src/StateTable/Combination/Conflict/Tests.antt =====
-- The check for conflicts at a concrete table.
use pawn_x.Prelude.{◌≡◌, ◌↔◌, refl, true, false, List, [], ◌∷◌, none, some, All}
use pawn_x.StateTable.Combination.{StateList, state_getlist_ptr, checkconflict, has_state}
use pawn_x.StateTable.Combination.Conflict.{
  Symbol, other_machine, conflict, both, pair_reports, target_reports, targets, sources,
  state_conflict,
}
use pawn_x.StateTable.Combination.Conflict.Sound.{IsChecked, FitsAll, state_conflict_iff}

abbrev table : List StateList
table =
    record { states = 1 ∷ 2 ∷ []; fsa = 1; listid = 1 }
    ∷ record { states = 2 ∷ 3 ∷ []; fsa = 1; listid = 2 }
    ∷ record { states = 3 ∷ []; fsa = 2; listid = 3 }
    ∷ []

abbrev symbols : List Symbol
symbols =
    record {
      name = "open";
      is_child = false;
      is_function = true;
      states = some 1 ∷ none ∷ some 3 ∷ [];
    }
    ∷ record { name = "entry"; is_child = false; is_function = true; states = some 1 ∷ some 2 ∷ [] }
    ∷ []

reports : state_conflict table symbols ≡ some (other_machine "open" ∷ conflict "entry" ∷ [])
unfolding state_conflict sources targets target_reports pair_reports both state_getlist_ptr
    checkconflict has_state
reports = refl

state_conflict_iff_example :
    (state_conflict table symbols ≡ some [])
    ↔ All (λ s. IsChecked s → FitsAll table s.name s.states) symbols
state_conflict_iff_example = state_conflict_iff table symbols
