-- ===== src/StateTable/Combination/Conflict.antt =====
-- `state_conflict` of scstate.c: the check of all functions with states for overlapping state
-- combinations. The root table is a list of symbols.
pub mod Sound
mod Tests
use text.Mathlib.Text.{◌==◌ as str_eq}
use Prim.Native.String.{String}
use pawn_x.Prelude.{
  ℕ, Bool, ◌&&◌, ◌||◌, not, ◌==◌, if◌then◌else◌, List, [], ◌∷◌, ◌++◌, Option, none, some,
}
use pawn_x.StateTable.Combination.{StateList, state_getlist_ptr, checkconflict}

-- What the check reads of a symbol: `sym->parent!=NULL`, `sym->ident==iFUNCTN`, and the field
-- `index` of each item of `sym->states`, where `none` is -1 and `[]` stands for a null list too.
pub record Symbol : Type 0 where
  pub name : String
  pub is_child : Bool
  pub is_function : Bool
  pub states : List (Option ℕ)

-- The errors 83 and 84.
pub data Report : Type 0 where
  other_machine conflict : String → Report

-- uENTRYFUNC
abbrev pub entry_func : String
entry_func = "entry"

-- The reports of two steps, the first one's in front; `none` is a failed assertion.
pub both : Option (List Report) → Option (List Report) → Option (List Report)
both none y = none
both (some xs) none = none
both (some xs) (some ys) = some (xs ++ ys)

-- The two tests on a pair of combinations.
pub pair_reports : String → StateList → StateList → List Report
pair_reports name p q =
    (if not (p.fsa == q.fsa) && not (str_eq name entry_func) then other_machine name ∷ [] else [])
    ++ (if checkconflict p.states q.states then conflict name ∷ [] else [])

module _ (tab : List StateList) where
  -- The body of the inner loop.
  pub target_reports : String → StateList → Option ℕ → Option (List Report)
  target_reports name p none = some []
  target_reports name p (some id) = elim (state_getlist_ptr id tab) [
    | none ↦ none
    | some q ↦ some (pair_reports name p q)
  ]

  -- The inner loop.
  pub targets : String → StateList → List (Option ℕ) → Option (List Report)
  targets name p [] = some []
  targets name p (t ∷ ts) = both (target_reports name p t) (targets name p ts)

  -- The outer loop on the states of a symbol.
  pub sources : String → List (Option ℕ) → Option (List Report)
  sources name [] = some []
  sources name (none ∷ ts) = sources name ts
  sources name (some id ∷ ts) =
      let rest = sources name ts in
      elim (state_getlist_ptr id tab) [ none ↦ none | some p ↦ both (targets name p ts) rest ]

  -- `state_conflict`: the errors that it reports, in order.
  pub state_conflict : List Symbol → Option (List Report)
  state_conflict [] = some []
  state_conflict (s ∷ ss) =
      let rest = state_conflict ss in
      if s.is_child || not s.is_function then rest else both (sources s.name s.states) rest
