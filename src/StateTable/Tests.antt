-- ===== src/StateTable/Tests.antt =====
-- Automata and states at concrete tables.
use pawn_x.Prelude.{◌≡◌, inr, none, some, List, [], ◌∷◌, refl, arith}
use pawn_x.StateTable.{
  ConstValue, find_automaton, automaton_add, find_state, state_add, state_findid,
}
use pawn_x.StateTable.Automata
use pawn_x.StateTable.Automata.{automaton_add-Added}
use pawn_x.StateTable.States
use pawn_x.StateTable.States.{state_add-Added}

abbrev nameless : ConstValue
nameless = record { name = ""; value = 0; index = 1 }

abbrev door : ConstValue
door = record { name = "door"; value = 0; index = 2 }

abbrev machines : List ConstValue
machines = nameless ∷ door ∷ []

machines-IsDistinct : Automata.IsDistinct machines
machines-IsDistinct = ((((λ e. cc e), (λ e. cc e)), tt), (tt, tt))

-- Ids are given in order, and a name that is there is not added again.
machine_ids :
    (automaton_add "" [] ≡ some (nameless, nameless ∷ []))
    × (automaton_add "door" (nameless ∷ []) ≡ some (door, machines))
    × (automaton_add "door" machines ≡ some (door, machines))
unfolding automaton_add find_automaton
machine_ids = (refl, refl, refl)

-- There is no id above SHRT_MAX.
last_machine : automaton_add "lamp" (record door { index = 32767 } ∷ []) ≡ none
unfolding automaton_add find_automaton
last_machine = refl

automaton_add-Added_example :
    (r : ConstValue × List ConstValue) × ((automaton_add "lamp" machines ≡ some r)
      × Automata.Added "lamp" machines r)
automaton_add-Added_example =
    automaton_add-Added "lamp" machines (omega arith) machines-IsDistinct
      (omega arith, (omega arith, tt))

abbrev closed : ConstValue
closed = record { name = "closed"; value = 1; index = 2 }

abbrev opened : ConstValue
opened = record { name = "open"; value = 2; index = 2 }

abbrev states : List ConstValue
states = closed ∷ opened ∷ []

states-IsDistinct : States.IsDistinct states
states-IsDistinct = ((inr ((λ e. cc e), (λ e. cc e)), tt), (tt, tt))

-- Every automaton counts its own states.
state_ids :
    (state_add "closed" 2 [] ≡ some (closed, closed ∷ []))
    × (state_add "open" 2 (closed ∷ []) ≡ some (opened, states))
    × (state_findid 2 states ≡ some opened)
    × (state_add "open" 32768 states ≡ none)
unfolding state_add find_state state_findid
state_ids = (refl, refl, refl, refl)

state_add-Added_example :
    (r : ConstValue × List ConstValue) × ((state_add "ajar" 2 states ≡ some r)
      × States.Added "ajar" 2 states r)
state_add-Added_example =
    state_add-Added "ajar" 2 states (omega arith) (omega arith) states-IsDistinct
