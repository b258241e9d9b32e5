-- ===== src/Host/Array.antt =====
-- `amx_PushArray` (amx.c): an array that is copied to the heap, with its address on the stack.
use mathlib.Core.Option.{some-injective}
use pawn_x.Prelude.{
  ℕ, zero, suc, ◌+◌, ◌*◌, ◌%◌, ◌≤◌, ◌<◌, ◌≡◌, ◌⊎◌, inl, inr, refl, ap, ◌∙◌, arith, List, [], ◌∷◌,
  Option, none, some, length, get_elem?,
}
use pawn_x.Cell.{modulus}
use pawn_x.Memory.{Memory, read, write}
use pawn_x.Memory.Laws.{read-write_self, read-write_far}
use pawn_x.Machine.{err_none, stkmargin}
use pawn_x.Host.{Amx, amx_PushArray, push_copied, copy_cells, err_memory}
use pawn_x.Host.Heap.{IsOrdered, amx_Push-read, amx_Allot-cases, opened}

-- Cells below the array are not changed.
copy_cells_far :
    (a b : ℕ) (vs : List ℕ) (m : Memory) → b + 4 ≤ a → read (copy_cells a vs m) b ≡ read m b
unfolding copy_cells
copy_cells_far a b [] m h = refl
copy_cells_far a b (v ∷ vs) m h =
    copy_cells_far (a + 4) b vs (write m a v) (omega (arith, h)) ∙ read-write_far m a v b (inl h)

copy_cells-read :
    (a k v : ℕ) (vs : List ℕ) (m : Memory)
    → get_elem? vs k ≡ some v
    → v < modulus
    → read (copy_cells a vs m) (a + 4 * k) ≡ v
unfolding copy_cells
copy_cells-read a k v [] m e h = absurd (cc e)
copy_cells-read a zero v (w ∷ vs) m e h =
    let same : w ≡ v = some-injective w v e in
    let here : a + 4 * 0 ≡ a = omega arith in
    let fits : w % modulus ≡ v = omega (arith, same, h) in
    ap (read (copy_cells (a + 4) vs (write m a w))) here
    ∙ copy_cells_far (a + 4) a vs (write m a w) (omega arith)
    ∙ read-write_self m a w
    ∙ fits
copy_cells-read a (suc k) v (w ∷ vs) m e h =
    let there : a + 4 * suc k ≡ a + 4 + 4 * k = omega arith in
    ap (read (copy_cells (a + 4) vs (write m a w))) there
    ∙ copy_cells-read (a + 4) k v vs (write m a w) e h

get_elem?-length : (vs : List ℕ) (k v : ℕ) → get_elem? vs k ≡ some v → k < length vs
get_elem?-length [] k v e = absurd (cc e)
get_elem?-length (w ∷ vs) zero v e = omega arith
get_elem?-length (w ∷ vs) (suc k) v e = omega (arith, get_elem?-length vs k v e)

-- What `amx_PushArray` has done with an array of cells.
abbrev pub Stored : List ℕ → Amx → Amx → Type 0
Stored array amx amx' =
    (amx'.hea ≡ amx.hea + 4 * length array)
    × ((k v : ℕ) → get_elem? array k ≡ some v → v < modulus → read amx'.mem (amx.hea + 4 * k) ≡ v)

IsOrdered-copied :
    (amx copied : Amx)
    → IsOrdered amx
    → copied.hea ≤ amx.stk
    → copied.stk ≡ amx.stk
    → copied.stp ≡ amx.stp
    → IsOrdered copied
unfolding IsOrdered
IsOrdered-copied amx copied (ordered, (below, small)) h stk stp =
    (omega (arith, h, stk), (omega (arith, below, stk, stp), omega (arith, small, stp)))

-- `amx_Push` of the address of the array that was copied.
pushed_array :
    (array : List ℕ) (amx : Amx) (r : ℕ × (Option ℕ × Amx))
    → IsOrdered amx
    → amx.hea + 4 * length array + stkmargin ≤ amx.stk
    → r
      ≡ push_copied array
          (err_none, (some amx.hea, record amx { hea = amx.hea + 4 * length array }))
    → (amx' : Amx) × ((r ≡ (err_none, (some amx.hea, amx')))
        × ((Stored array amx amx')
            × ((amx'.stk + 4 ≡ amx.stk) × (read amx'.mem amx'.stk ≡ amx.hea))))
pushed_array array amx r o room e =
    let (ordered, (below, small)) = opened amx o in
    let hea = amx.hea + 4 * length array in
    let copied : Amx = record amx { hea = hea; mem = copy_cells amx.hea array amx.mem } in
    let o' = IsOrdered-copied amx copied o (omega (arith, room)) refl refl in
    elim (amx_Push-read amx.hea copied o' (omega (arith, ordered, below, small))) [
      | inl (less, f) ↦ absurd (omega (arith, less, room))
      | inr (free, (amx', (f, (top, (params, (kept, (value, others))))))) ↦
          let done : r ≡ (err_none, (some amx.hea, amx')) =
            e ∙ ap (λ (q : ℕ × Amx). (q.0, (some amx.hea, q.1))) f in
          (
            amx',
            (
              done,
              (
                (
                  kept,
                  λ k v g b.
                      let inside = get_elem?-length array k v g in
                      others (amx.hea + 4 * k) (inl (omega (arith, inside, top, room)))
                      ∙ copy_cells-read amx.hea k v array amx.mem g b,
                ),
                (top, value),
              ),
            ),
          )
    ]

-- An array that fits between the heap and the stack is refused with AMX_ERR_MEMORY, without a change,
-- if less than STKMARGIN bytes were left. Else its cells stand at the old end of the heap, the heap is
-- behind them, and that address is on top of the stack.
pub amx_PushArray-read :
    (array : List ℕ) (amx : Amx)
    → IsOrdered amx
    → amx.hea + 4 * length array ≤ amx.stk
    → ((amx.stk < amx.hea + 4 * length array + stkmargin)
        × (amx_PushArray array (length array) amx ≡ (err_memory, (none, amx))))
      ⊎ ((amx' : Amx) × ((amx_PushArray array (length array) amx ≡ (err_none, (some amx.hea, amx')))
            × ((Stored array amx amx')
                × ((amx'.stk + 4 ≡ amx.stk) × (read amx'.mem amx'.stk ≡ amx.hea)))))
unfolding amx_PushArray
amx_PushArray-read array amx o h = elim (amx_Allot-cases (length array) amx o h) [
  | inl (less, e) ↦ inl (less, ap (push_copied array) e)
  | inr (room, e) ↦ inr (pushed_array array amx _ o room (ap (push_copied array) e))
]
