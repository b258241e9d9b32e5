-- ===== src/Assembler.antt =====
-- The assembler of compiler/source/compiler/sc6.c: the table of instructions, the numbers, and the
-- functions that turn an instruction into cells. A text is the list of its bytes up to the zero byte.
pub mod Table
pub mod Search
pub mod Number
pub mod Emit
pub mod Passes
pub mod Decoded
pub mod Roundtrip
mod Tests
use Prim.Native.Nat.{Ordering}
use pawn_x.Prelude.{
  ℕ, zero, suc, ◌+◌, ◌-◌, ◌/◌, Bool, true, false, leb, ltb, ◌==◌, if◌then◌else◌, List, [], ◌∷◌,
  Option, none, some, length, get_elem?, take,
}
use pawn_x.Prelude.Chars.{codes, to_lower}
use pawn_x.Assembler.Table.{opcodelist}

-- `stricmp`: `lt` for a negative result, `gt` for a positive one.
unfoldable pub stricmp : List ℕ → List ℕ → Ordering
stricmp [] [] = Ordering.eq
stricmp [] (d ∷ b) = Ordering.lt
stricmp (c ∷ a) [] = Ordering.gt
stricmp (c ∷ a) (d ∷ b) =
    let rest = stricmp a b in
    if to_lower c == to_lower d
    then rest
    else if ltb (to_lower c) (to_lower d)
    then Ordering.lt
    else Ordering.gt

-- `opcodelist[i].name`
unfoldable pub name_at : ℕ → List ℕ
unfolding opcodelist
name_at i = elim (get_elem? opcodelist i) [ none ↦ [] | some e ↦ codes (e.name) ]

abbrev pub is_gt : Ordering → Bool
is_gt Ordering.lt = false
is_gt Ordering.eq = false
is_gt Ordering.gt = true

abbrev pub is_eq : Ordering → Bool
is_eq Ordering.lt = false
is_eq Ordering.eq = true
is_eq Ordering.gt = false

-- `while (low<high)`, on fuel: the last `low`.
unfoldable pub search : List ℕ → ℕ → ℕ → ℕ → Option ℕ
unfolding stricmp name_at
search str zero low high = none
search str (suc fuel) low high = elim (ltb low high) [
  | false ↦ some low
  | true ↦
      let mid = (low + high) / 2 in
      elim (is_gt (stricmp str (name_at mid))) [
        | true ↦ search str fuel (mid + 1) high
        | false ↦ search str fuel low mid
      ]
]

-- `MAX_INSTR_LEN`
abbrev pub max_instr_len : ℕ
max_instr_len = 30

-- The end of `findopcode`.
abbrev pub search_result : List ℕ → Option ℕ → Option ℕ
search_result str none = none
search_result str (some low) = some (if is_eq (stricmp str (name_at low)) then low else 0)

-- `findopcode`. A table of 158 names is halved at most eight times.
unfoldable pub findopcode : List ℕ → ℕ → Option ℕ
unfolding search stricmp name_at opcodelist
findopcode instr maxlen =
    let str = take maxlen instr in
    if leb max_instr_len maxlen
    then some 0
    else search_result str (search str 9 1 (length opcodelist - 1))
