-- ===== src/Host/Heap.antt =====
-- The stack and the heap under `amx_Push`, `amx_Allot`, `amx_Release` and `amx_PushArray` (amx.c).
use pawn_x.Prelude.{
  ℕ, ◌+◌, ◌-◌, ◌*◌, ◌%◌, ◌≤◌, ◌<◌, ◌≡◌, ◌⊎◌, inl, inr, refl, ap, ◌∙◌, arith, false, ltb, ltb→lt,
  none, some, Bool-cases,
}
use pawn_x.Cell.{modulus, cell_min, add, sub, slt, is_neg}
use pawn_x.Memory.{read, write}
use pawn_x.Memory.Laws.{read-write_self, read-write_far}
use pawn_x.Machine.{err_none, err_stackerr, stkmargin}
use pawn_x.Host.{Amx, amx_Push, amx_Allot, amx_Release, room, err_memory, size_modulus, to_size}

-- The heap grows up to the stack, and both are below the sign bit.
unfoldable pub IsOrdered : Amx → Type 0
IsOrdered amx = (amx.hea ≤ amx.stk) × ((amx.stk ≤ amx.stp) × (amx.stp + stkmargin < cell_min))

slt_lem : (a b : ℕ) → a < cell_min → b < cell_min → slt a b ≡ ltb a b
slt_lem a b h k =
    let a' : (a + cell_min) % modulus ≡ a + cell_min = omega (arith, h) in
    let b' : (b + cell_min) % modulus ≡ b + cell_min = omega (arith, k) in
    rw (slt, a', b') (ground arith)

margin_lem :
    (amx : Amx)
    → IsOrdered amx
    → slt amx.stk (add amx.hea stkmargin) ≡ ltb amx.stk (amx.hea + stkmargin)
unfolding IsOrdered
margin_lem amx (ordered, (below, small)) =
    let sum : add amx.hea stkmargin ≡ amx.hea + stkmargin = omega (arith, ordered, below, small) in
    ap (slt amx.stk) sum
    ∙ slt_lem amx.stk (amx.hea + stkmargin) (omega (arith, below, small))
        (omega (arith, ordered, below, small))

-- The value is on top of the stack, and nothing else of the data is changed.
abbrev pub Pushed : ℕ → Amx → Amx → Type 0
Pushed value amx amx' =
    (amx'.stk + 4 ≡ amx.stk)
    × ((amx'.paramcount ≡ amx.paramcount + 1)
        × ((amx'.hea ≡ amx.hea)
            × ((read amx'.mem amx'.stk ≡ value)
                × ((a : ℕ)
                    → (a + 4 ≤ amx'.stk) ⊎ (amx.stk ≤ a)
                    → read amx'.mem a ≡ read amx.mem a))))

-- With the heap below the stack, `amx_Push` fails with AMX_ERR_STACKERR and changes nothing if less
-- than STKMARGIN bytes are free; else the value is on top of the stack, one parameter more is counted,
-- and neither the heap pointer nor any other cell is changed.
pub amx_Push-read :
    (value : ℕ) (amx : Amx)
    → IsOrdered amx
    → value < modulus
    → ((amx.stk < amx.hea + stkmargin) × (amx_Push value amx ≡ (err_stackerr, amx)))
      ⊎ ((amx.hea + stkmargin ≤ amx.stk)
          × ((amx' : Amx) × ((amx_Push value amx ≡ (err_none, amx')) × Pushed value amx amx')))
unfolding amx_Push IsOrdered
amx_Push-read value amx o h =
    let (ordered, (below, small)) = o in
    let test = margin_lem amx o in
    elim (Bool-cases (ltb amx.stk (amx.hea + stkmargin))) [
      | inl y ↦ inl (ltb→lt amx.stk (amx.hea + stkmargin) y, rw (amx_Push, test, y) refl)
      | inr f ↦
          let free : amx.hea + stkmargin ≤ amx.stk = ground arith in
          let stk = sub amx.stk 4 in
          let top : stk + 4 ≡ amx.stk = omega (arith, free, below, small) in
          let pushed : Amx = record amx {
            stk = stk;
            paramcount = amx.paramcount + 1;
            mem = write amx.mem stk value;
          } in
          let fits : value % modulus ≡ value = omega (arith, h) in
          inr (
            free,
            (
              pushed,
              (
                rw (amx_Push, test, f) refl,
                (
                  top,
                  (
                    refl,
                    (
                      refl,
                      (
                        read-write_self amx.mem stk value ∙ fits,
                        λ a c.
                            read-write_far amx.mem stk value a
                              (elim c [ inl l ↦ inl l | inr r ↦ inr (omega (arith, r, top)) ]),
                      ),
                    ),
                  ),
                ),
              ),
            ),
          )
    ]

to_size_lem : (v : ℕ) → v < cell_min → to_size v ≡ v
to_size_lem v h = let f : is_neg v ≡ false = ground arith in rw (to_size, f) refl

-- The left side of the test of `amx_Allot`, in numbers.
room_lem :
    (cells : ℕ) (amx : Amx)
    → IsOrdered amx
    → cells < cell_min
    → room cells amx
      ≡ (amx.stk - amx.hea + (size_modulus - 4 * cells % size_modulus)) % size_modulus
unfolding IsOrdered
room_lem cells amx (ordered, (below, small)) h =
    let free : sub amx.stk amx.hea ≡ amx.stk - amx.hea = omega (arith, ordered, below, small) in
    let left : to_size (sub amx.stk amx.hea) ≡ amx.stk - amx.hea =
      ap to_size free ∙ to_size_lem (amx.stk - amx.hea) (omega (arith, below, small)) in
    let size : to_size cells * 4 ≡ 4 * cells =
      ap (λ n. n * 4) (to_size_lem cells h) ∙ omega arith in
    rw (room, left, size) refl

new_hea :
    (cells : ℕ) (amx : Amx)
    → cells < cell_min
    → (amx.hea + to_size cells * 4) % modulus ≡ (amx.hea + 4 * cells) % modulus
new_hea cells amx h =
    ap (λ n. (amx.hea + n) % modulus) (ap (λ n. n * 4) (to_size_lem cells h) ∙ omega arith)

allot_ok :
    (cells : ℕ) (amx : Amx)
    → cells < cell_min
    → ltb (room cells amx) stkmargin ≡ false
    → amx_Allot cells amx
      ≡ (err_none, (some amx.hea, record amx { hea = (amx.hea + 4 * cells) % modulus }))
unfolding amx_Allot
allot_ok cells amx h f =
    rw (amx_Allot, f)
      (ap (λ n. (err_none, (some amx.hea, record amx { hea = n }))) (new_hea cells amx h))

pub opened :
    (amx : Amx)
    → IsOrdered amx
    → (amx.hea ≤ amx.stk) × ((amx.stk ≤ amx.stp) × (amx.stp + stkmargin < cell_min))
unfolding IsOrdered
opened amx o = o

lt_false : (n : ℕ) → stkmargin ≤ n → ltb n stkmargin ≡ false
lt_false n h = ground arith

released :
    (amx : Amx) (hea : ℕ)
    → IsOrdered amx
    → amx.hea ≤ hea
    → hea ≤ amx.stk
    → amx_Release amx.hea (record amx { hea = hea }) ≡ (err_none, amx)
unfolding amx_Release
released amx hea o l h =
    let (ordered, (below, small)) = opened amx o in
    let test =
      slt_lem amx.hea hea (omega (arith, ordered, below, small)) (omega (arith, h, below, small)) in
    elim (Bool-cases (ltb amx.hea hea)) [
      | inl y ↦ rw (amx_Release, test, y) refl
      | inr f ↦
          let same : hea ≡ amx.hea = ground arith in
          rw (amx_Release, test, f) (ap (λ n. (err_none, record amx { hea = n })) same)
    ]

-- Both ends of `amx_Allot` for a request that fits between the heap and the stack.
pub amx_Allot-cases :
    (cells : ℕ) (amx : Amx)
    → IsOrdered amx
    → amx.hea + 4 * cells ≤ amx.stk
    → ((amx.stk < amx.hea + 4 * cells + stkmargin)
        × (amx_Allot cells amx ≡ (err_memory, (none, amx))))
      ⊎ ((amx.hea + 4 * cells + stkmargin ≤ amx.stk)
          × (amx_Allot cells amx
              ≡ (err_none, (some amx.hea, record amx { hea = amx.hea + 4 * cells }))))
unfolding amx_Allot
amx_Allot-cases cells amx o h =
    let (ordered, (below, small)) = opened amx o in
    let few : cells < cell_min = omega (arith, h, below, small) in
    let left : room cells amx ≡ amx.stk - (amx.hea + 4 * cells) =
      room_lem cells amx o few ∙ omega (arith, h, ordered, below, small) in
    elim (Bool-cases (ltb (room cells amx) stkmargin)) [
      | inl y ↦
          let less = ltb→lt (room cells amx) stkmargin y in
          inl (omega (arith, less, left, h), rw (amx_Allot, y) refl)
      | inr f ↦
          let moved : (amx.hea + 4 * cells) % modulus ≡ amx.hea + 4 * cells =
            omega (arith, h, below, small) in
          let enough : stkmargin ≤ room cells amx = ground arith in
          inr (
            omega (arith, enough, left, h),
            allot_ok cells amx few f
                ∙ ap (λ n. (err_none, (some amx.hea, record amx { hea = n }))) moved,
          )
    ]

-- A request that fits between the heap and the stack is refused with AMX_ERR_MEMORY, without a change,
-- if less than STKMARGIN bytes were left, and else moves the heap by its size, leaves STKMARGIN bytes,
-- and is undone by `amx_Release` of its address.
pub amx_Allot-amx_Release :
    (cells : ℕ) (amx : Amx)
    → IsOrdered amx
    → amx.hea + 4 * cells ≤ amx.stk
    → ((amx.stk < amx.hea + 4 * cells + stkmargin)
        × (amx_Allot cells amx ≡ (err_memory, (none, amx))))
      ⊎ ((amx' : Amx) × ((amx_Allot cells amx ≡ (err_none, (some amx.hea, amx')))
            × ((amx'.hea ≡ amx.hea + 4 * cells)
                × ((amx'.hea + stkmargin ≤ amx'.stk)
                    × (amx_Release amx.hea amx' ≡ (err_none, amx))))))
amx_Allot-amx_Release cells amx o h = elim (amx_Allot-cases cells amx o h) [
  | inl c ↦ inl c
  | inr (room, e) ↦
      let hea = amx.hea + 4 * cells in
      inr (record amx { hea = hea }, (e, (refl, (room, released amx hea o (omega arith) h))))
]

-- A request of more than is between the heap and the stack, by which the heap stays below 2^32, is
-- granted, and the heap is moved over the stack: the difference is computed as `size_t`, where it
-- is not below STKMARGIN.
pub amx_Allot_beyond :
    (cells : ℕ) (amx : Amx)
    → IsOrdered amx
    → amx.stk < amx.hea + 4 * cells
    → amx.hea + 4 * cells < modulus
    → (amx' : Amx) × ((amx_Allot cells amx ≡ (err_none, (some amx.hea, amx')))
        × ((amx'.hea ≡ amx.hea + 4 * cells) × (amx'.stk < amx'.hea)))
amx_Allot_beyond cells amx o h b =
    let (ordered, (below, small)) = opened amx o in
    let few : cells < cell_min = omega (arith, b) in
    let left : room cells amx ≡ size_modulus - (amx.hea + 4 * cells - amx.stk) =
      room_lem cells amx o few ∙ omega (arith, h, b, ordered, below, small) in
    let more : ltb (room cells amx) stkmargin ≡ false =
      rw left (lt_false (size_modulus - (amx.hea + 4 * cells - amx.stk)) (omega (arith, b))) in
    let amx' : Amx = record amx { hea = (amx.hea + 4 * cells) % modulus } in
    let moved : amx'.hea ≡ amx.hea + 4 * cells = omega (arith, b) in
    (amx', (allot_ok cells amx few more, (moved, omega (arith, moved, h))))
