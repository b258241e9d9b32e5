-- ===== src/StateTable/Combination/Ids.antt =====
-- The ids of state combinations: `state_addlist` and the queries on an id (scstate.c).
use mathlib.Core.Path.{subst}
use pawn_x.Prelude.{
  ℕ, ◌+◌, ◌≤◌, ◌<◌, ◌≡◌, ◌≢◌, ◌↔◌, ◌⊎◌, inl, inr, refl, ap, arith, true, false, ◌&&◌, ◌==◌, List,
  [], ◌∷◌, none, some, Bool-cases, Option-cases, All, All-map, AllPairs, length, ℕ_discrete,
}
use pawn_x.StateTable.{raise}
use pawn_x.StateTable.Combination.{
  StateList, same_states, state_findlist, state_getlist_ptr, state_addlist, has_state, state_inlist,
  checkconflict, state_conflict_id, state_getfsa, state_count,
}

-- Ids are unique, from 1 up, and no combination stands twice.
abbrev pub Differ : StateList → StateList → Type 0
Differ p q = (p.listid ≢ q.listid) × ((p.fsa ≢ q.fsa) ⊎ (p.states ≢ q.states))

pub record IsValid (tab : List StateList) : Type 0 where
  pub distinct : AllPairs Differ tab
  pub positive : All (λ p. 0 < p.listid) tab

pub same_states_iff : (xs ys : List ℕ) → (same_states xs ys ≡ true) ↔ (xs ≡ ys)
unfolding same_states
same_states_iff [] [] = (λ h. refl, λ h. refl)
same_states_iff [] (y ∷ ys) = (λ h. cc, λ h. cc)
same_states_iff (x ∷ xs) [] = (λ h. cc, λ h. cc)
same_states_iff (x ∷ xs) (y ∷ ys) = ground (arith, same_states_iff xs ys)

-- What a failed search knows of an entry.
abbrev Other : ℕ → List ℕ → ℕ → StateList → Type 0
Other last list fsa p = (p.listid ≤ last) × ((fsa ≢ p.fsa) ⊎ (list ≢ p.states))

findlist_miss :
    (list : List ℕ) (fsa last : ℕ) (tab : List StateList)
    → (state_findlist list fsa last tab).0 ≡ none
    → (last ≤ (state_findlist list fsa last tab).1)
      × All (Other (state_findlist list fsa last tab).1 list fsa) tab
unfolding state_findlist
findlist_miss list fsa last [] h = (omega arith, tt)
findlist_miss list fsa last (p ∷ ps) h =
    ground (arith, same_states_iff p.states list, findlist_miss list fsa (raise last p.listid) ps)

-- What holds of every entry holds of the one found.
findlist-All :
    (P : StateList → Type 0) (list : List ℕ) (fsa last : ℕ) (tab : List StateList) (q : StateList)
    → All P tab
    → (state_findlist list fsa last tab).0 ≡ some q
    → P q
unfolding state_findlist
findlist-All P list fsa last [] q a h = cc
findlist-All P list fsa last (p ∷ ps) q a h =
    elim (Bool-cases ((p.fsa == fsa) && same_states p.states list)) [
      | inl t ↦ subst P (cc (rw t at h)) a.0
      | inr f ↦ findlist-All P list fsa (raise last p.listid) ps q a.1 (rw f at h)
    ]

-- The entry of a search that succeeds has the combination, and its id leads to it.
findlist_hit :
    (list : List ℕ) (fsa last : ℕ) (tab : List StateList) (q : StateList)
    → (state_findlist list fsa last tab).0 ≡ some q
    → (q.states ≡ list) × (q.fsa ≡ fsa)
unfolding state_findlist
findlist_hit list fsa last [] q h = cc
findlist_hit list fsa last (p ∷ ps) q h =
    ground (arith, same_states_iff p.states list, findlist_hit list fsa (raise last p.listid) ps q)

-- What a search finds by its list, its id finds too.
findlist-getlist :
    (list : List ℕ) (fsa last : ℕ) (tab : List StateList) (q : StateList)
    → AllPairs Differ tab
    → (state_findlist list fsa last tab).0 ≡ some q
    → state_getlist_ptr q.listid tab ≡ some q
unfolding state_findlist state_getlist_ptr
findlist-getlist list fsa last [] q u h = cc
findlist-getlist list fsa last (p ∷ ps) q u h =
    elim (Bool-cases ((p.fsa == fsa) && same_states p.states list)) [
      | inl t ↦ let e : p ≡ q = cc (rw t at h) in ground (arith, ap (λ (x : StateList). x.listid) e)
      | inr f ↦
          let here = rw f at h in
          let apart = findlist-All (Differ p) list fsa (raise last p.listid) ps q u.0 here in
          ground (arith, apart.0, findlist-getlist list fsa (raise last p.listid) ps q u.1 here)
    ]

-- The contract of `state_addlist`: its id leads to the combination, every id that led to one still
-- leads to the same, the table stays valid, and adding the combination again changes nothing.
pub record Added (list : List ℕ) (fsa : ℕ) (tab : List StateList) (r : ℕ × List StateList)
    : Type 0 where
  pub valid : IsValid r.1
  pub entry : state_getlist_ptr r.0 r.1 ≡ some (record { states = list; fsa = fsa; listid = r.0 })
  pub old :
      (id : ℕ)
      → (state_getlist_ptr id tab ≡ none) ⊎ (state_getlist_ptr id r.1 ≡ state_getlist_ptr id tab)
  pub again : state_addlist list fsa r.1 ≡ r

getlist_bound :
    (id last : ℕ) (tab : List StateList)
    → All (λ p. p.listid ≤ last) tab
    → last < id
    → state_getlist_ptr id tab ≡ none
unfolding state_getlist_ptr
getlist_bound id last [] a h = refl
getlist_bound id last (p ∷ ps) a h = ground (arith, getlist_bound id last ps a.1 h)

getlist_front :
    (p : StateList) (tab : List StateList) → state_getlist_ptr p.listid (p ∷ tab) ≡ some p
unfolding state_getlist_ptr
getlist_front p tab = ground arith

getlist_skip :
    (id : ℕ) (p : StateList) (tab : List StateList)
    → id ≢ p.listid
    → state_getlist_ptr id (p ∷ tab) ≡ state_getlist_ptr id tab
unfolding state_getlist_ptr
getlist_skip id p tab h = ground arith

findlist_front :
    (list : List ℕ) (fsa id : ℕ) (tab : List StateList)
    → (state_findlist list fsa 0 (record { states = list; fsa = fsa; listid = id } ∷ tab)).0
      ≡ some (record { states = list; fsa = fsa; listid = id })
unfolding state_findlist
findlist_front list fsa id tab = ground (arith, same_states_iff list list)

-- `state_addlist` on a valid table keeps it valid, returns an id under which the table then holds
-- the list and the automaton, leaves every id that was there with its entry, and returns the same
-- id and table again when it is called again with the same list.
pub state_addlist-Added :
    (list : List ℕ) (fsa : ℕ) (tab : List StateList)
    → IsValid tab
    → Added list fsa tab (state_addlist list fsa tab)
unfolding state_addlist
state_addlist-Added list fsa tab v = elim (Option-cases (state_findlist list fsa 0 tab).0) [
  | inl missed ↦
      let last = (state_findlist list fsa 0 tab).1 in
      let (low, others) = findlist_miss list fsa 0 tab missed in
      rw (missed, state_addlist)
        (record {
          valid = record {
            distinct = (
              All-map (Other last list fsa)
                  (Differ (record { states = list; fsa = fsa; listid = last + 1 }))
                  (λ d h. (omega (arith, h.0), h.1)) tab others,
              v.distinct,
            );
            positive = (omega arith, v.positive);
          };
          entry = getlist_front (record { states = list; fsa = fsa; listid = last + 1 }) tab;
          old = λ id. elim (ℕ_discrete id (last + 1)) [
            | yes e ↦ inl (
                getlist_bound id last tab
                  (All-map (Other last list fsa) (λ p. p.listid ≤ last) (λ p h. h.0) tab others)
                  (omega arith))
            | no ne ↦
                inr
                  (getlist_skip id (record { states = list; fsa = fsa; listid = last + 1 }) tab ne)
          ];
          again = rw (findlist_front list fsa (last + 1) tab, state_addlist);
        })
  | inr (q, hit) ↦
      rw (hit, state_addlist)
        (record {
          valid = v;
          entry = ground (
            arith,
            findlist-getlist list fsa 0 tab q v.distinct hit,
            findlist_hit list fsa 0 tab q hit,
          );
          old = λ id. inr refl;
          again = rw (hit, state_addlist);
        })
]

getlist_positive :
    (id : ℕ) (tab : List StateList) (p : StateList)
    → All (λ p. 0 < p.listid) tab
    → state_getlist_ptr id tab ≡ some p
    → 0 < id
unfolding state_getlist_ptr
getlist_positive id [] p a h = cc
getlist_positive id (q ∷ tab) p a h = ground (arith, getlist_positive id tab p a.1)

-- Two lists share a state.
abbrev pub Shares : List ℕ → List ℕ → Type 0
Shares xs ys = (s : ℕ) × (has_state s xs ≡ true) × (has_state s ys ≡ true)

pub checkconflict-Shares : (xs ys : List ℕ) → checkconflict xs ys ≡ true → Shares xs ys
unfolding checkconflict has_state
checkconflict-Shares [] ys h = cc
checkconflict-Shares (x ∷ xs) ys h = elim (Bool-cases (has_state x ys)) [
  | inl t ↦ (x, ground arith, t)
  | inr f ↦ let (s, hx, hy) = checkconflict-Shares xs ys (rw f at h) in (s, ground arith, hy)
]

pub Shares-checkconflict :
    (xs ys : List ℕ) (s : ℕ)
    → has_state s xs ≡ true
    → has_state s ys ≡ true
    → checkconflict xs ys ≡ true
unfolding checkconflict has_state
Shares-checkconflict [] ys s hx hy = cc
Shares-checkconflict (x ∷ xs) ys s hx hy = elim (ℕ_discrete x s) [
  | yes e ↦ rw (e, hy)
  | no ne ↦ ground (arith, Shares-checkconflict xs ys s)
]

-- `state_conflict_id` on the ids of two combinations tells whether they share a state.
pub state_conflict_id-Shares :
    (id₁ id₂ : ℕ) (p q : StateList) (tab : List StateList)
    → state_getlist_ptr id₁ tab ≡ some p
    → state_getlist_ptr id₂ tab ≡ some q
    → ((state_conflict_id id₁ id₂ tab ≡ some true) × Shares p.states q.states)
      ⊎ ((state_conflict_id id₁ id₂ tab ≡ some false) × (¬ (Shares p.states q.states)))
unfolding state_conflict_id
state_conflict_id-Shares id₁ id₂ p q tab hp hq =
    elim (Bool-cases (checkconflict p.states q.states)) [
      | inl t ↦ inl (rw (hp, hq, t, state_conflict_id), checkconflict-Shares p.states q.states t)
      | inr f ↦ inr (
        rw (hp, hq, f, state_conflict_id),
        λ (s, hx, hy). ground (arith, Shares-checkconflict p.states q.states s hx hy),
      )
    ]

-- The queries on the id that `state_addlist` returned answer for the list that was added: its
-- automaton, its number of states, and which states are in it.
pub queries-state_addlist :
    (list : List ℕ) (fsa state : ℕ) (tab : List StateList)
    → IsValid tab
    → let (id, tab') = state_addlist list fsa tab in
      (state_getfsa id tab' ≡ some fsa)
      × (state_count id tab' ≡ length list)
      × (state_inlist id state tab' ≡ has_state state list)
unfolding state_getfsa state_count state_inlist
queries-state_addlist list fsa state tab v =
    let a = state_addlist-Added list fsa tab v in
    let positive : 0 < (state_addlist list fsa tab).0 =
      getlist_positive (state_addlist list fsa tab).0 (state_addlist list fsa tab).1 _
        a.valid.positive a.entry in
    ground (arith, a.entry)
