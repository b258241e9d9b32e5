-- ===== src/Host.antt =====
-- What a host application calls on a loaded script (compiler/source/amx/amx.c): `amx_Push`,
-- `amx_PushArray`, `amx_Allot`, `amx_Release`, `amx_GetAddr` and `amx_FindPublic`. Addresses are
-- offsets in the data, and `none` is a physical address that is NULL.
pub mod Heap
pub mod Array
pub mod Public
mod Tests
use Prim.Native.Nat.{Ordering}
use pawn_x.Prelude.{
  ℕ, zero, suc, ◌+◌, ◌-◌, ◌*◌, ◌/◌, ◌%◌, ◌^◌, true, false, ◌&&◌, ◌||◌, leb, ◌==◌, length, get_or,
  ltb, if◌then◌else◌, List, [], ◌∷◌, Option, none, some,
}
use pawn_x.Cell.{modulus, add, sub, slt, sle, is_neg}
use pawn_x.Memory.{Memory, write}
use pawn_x.Machine.{stkmargin, err_none, err_stackerr, err_memaccess}

-- The fields of `AMX` that these functions read and write, with the data.
pub record Amx : Type 0 where
  pub mem : Memory
  pub hea : ℕ
  pub stk : ℕ
  pub stp : ℕ
  pub paramcount : ℕ

-- AMX_ERR_MEMORY
abbrev pub err_memory : ℕ
err_memory = 16

unfoldable pub amx_Push : ℕ → Amx → ℕ × Amx
amx_Push value amx =
    if slt amx.stk (add amx.hea stkmargin)
    then (err_stackerr, amx)
    else let stk = sub amx.stk 4 in
      (
        err_none,
        record amx { stk = stk; paramcount = amx.paramcount + 1; mem = write amx.mem stk value },
      )

-- A `cell` or an `int` as `size_t`, of 64 bits.
abbrev pub size_modulus : ℕ
size_modulus = 2 ^ 64

abbrev pub to_size : ℕ → ℕ
to_size v = if is_neg v then v + (size_modulus - modulus) else v

-- `amx->stk - amx->hea - cells*sizeof(cell)`, where the multiplication makes all of it unsigned.
abbrev pub room : ℕ → Amx → ℕ
room cells amx =
    (to_size (sub amx.stk amx.hea) + (size_modulus - to_size cells * 4 % size_modulus))
    % size_modulus

-- `amx_Allot`: the result, `*amx_addr` and the machine.
unfoldable pub amx_Allot : ℕ → Amx → ℕ × (Option ℕ × Amx)
amx_Allot cells amx =
    if ltb (room cells amx) stkmargin
    then (err_memory, (none, amx))
    else (err_none, (some amx.hea, record amx { hea = (amx.hea + to_size cells * 4) % modulus }))

unfoldable pub amx_Release : ℕ → Amx → ℕ × Amx
amx_Release amx_addr amx =
    (err_none, if slt amx_addr amx.hea then record amx { hea = amx_addr } else amx)

unfoldable pub amx_GetAddr : ℕ → Amx → ℕ × Option ℕ
amx_GetAddr amx_addr amx =
    if (sle amx.hea amx_addr && slt amx_addr amx.stk) || (is_neg amx_addr || sle amx.stp amx_addr)
    then (err_memaccess, none)
    else (err_none, some amx_addr)

-- `memcpy(paddr,array,...)`, a cell at a time.
unfoldable pub copy_cells : ℕ → List ℕ → Memory → Memory
copy_cells a [] m = m
copy_cells a (v ∷ vs) m = copy_cells (a + 4) vs (write m a v)

-- `amx_PushArray` behind its call of `amx_Allot`.
abbrev pub push_copied : List ℕ → ℕ × (Option ℕ × Amx) → ℕ × (Option ℕ × Amx)
push_copied array (err, (none, amx)) = (err, (none, amx))
push_copied array (err, (some xaddr, amx)) =
    let copied : Amx = record amx { mem = copy_cells xaddr array amx.mem } in
    let (err', amx') = amx_Push xaddr copied in (err', (some xaddr, amx'))

-- `amx_PushArray`: the result, the address and the machine.
unfoldable pub amx_PushArray : List ℕ → ℕ → Amx → ℕ × (Option ℕ × Amx)
unfolding amx_Allot amx_Push copy_cells
amx_PushArray array numcells amx = push_copied array (amx_Allot numcells amx)

-- `strcmp`, on the bytes up to the zero byte.
unfoldable pub strcmp : List ℕ → List ℕ → Ordering
strcmp [] [] = Ordering.eq
strcmp [] (d ∷ b) = Ordering.lt
strcmp (c ∷ a) [] = Ordering.gt
strcmp (c ∷ a) (d ∷ b) =
    let rest = strcmp a b in if c == d then rest else if ltb c d then Ordering.lt else Ordering.gt

-- `amx_GetPublic` at an index of the table of public functions, whose names are given.
abbrev pub name_at : List (List ℕ) → ℕ → List ℕ
name_at names i = get_or names i []

-- `while (first<=last)`, on fuel, with `last + 1` for `last`; the inner `none` is that no name fits.
unfoldable pub search : ℕ → List (List ℕ) → List ℕ → ℕ → ℕ → Option (Option ℕ)
unfolding strcmp
search zero names name first last = none
search (suc fuel) names name first last = elim (ltb first last) [
  | false ↦ some none
  | true ↦
      let mid = (first + (last - 1)) / 2 in
      elim (strcmp (name_at names mid) name) [
        | Ordering.gt ↦ search fuel names name first mid
        | Ordering.lt ↦ search fuel names name (mid + 1) last
        | Ordering.eq ↦ some (some mid)
      ]
]

-- `INT_MAX`
abbrev pub int_max : ℕ
int_max = 2 ^ 31 - 1

abbrev pub err_notfound : ℕ
err_notfound = 19

abbrev pub found : Option ℕ → ℕ × ℕ
found none = (err_notfound, int_max)
found (some k) = (err_none, k)

-- `amx_FindPublic`: the result and `*index`.
unfoldable pub amx_FindPublic : List (List ℕ) → List ℕ → Option (ℕ × ℕ)
unfolding search
amx_FindPublic names name = elim (search (length names + 1) names name 0 (length names)) [
  | none ↦ none
  | some r ↦ some (found r)
]
