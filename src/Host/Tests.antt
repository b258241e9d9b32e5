-- ===== src/Host/Tests.antt =====
-- The host interface at a concrete machine and table.
use pawn_x.Prelude.{
  ℕ, zero, suc, ◌+◌, ◌*◌, ◌≤◌, ◌<◌, ◌≡◌, ◌≢◌, ◌⊎◌, refl, arith, List, [], ◌∷◌, none, some, length,
}
use pawn_x.Prelude.Chars.{codes}
use pawn_x.Memory.{read}
use pawn_x.Machine.{err_none, err_stackerr, stkmargin}
use pawn_x.Host.{
  Amx, strcmp, name_at, amx_Push, amx_Allot, amx_Release, amx_GetAddr, amx_PushArray,
  amx_FindPublic, err_memory, err_notfound, int_max, search,
}
use pawn_x.Host.Heap.{IsOrdered, Pushed, amx_Push-read, amx_Allot-amx_Release, amx_Allot_beyond}
use pawn_x.Host.Array.{Stored, amx_PushArray-read}
use pawn_x.Host.Public.{IsSorted, amx_FindPublic-get_elem}

abbrev amx : Amx
amx = record { mem = λ a. 0; hea = 400; stk = 1000; stp = 1096; paramcount = 1 }

amx-IsOrdered : IsOrdered amx
unfolding IsOrdered
amx-IsOrdered = (omega arith, (omega arith, omega arith))

-- A stack address is valid above the stack pointer only.
addresses : (amx_GetAddr 1000 amx ≡ (0, some 1000)) × (amx_GetAddr 996 amx ≡ (5, none))
unfolding amx_GetAddr
addresses = (refl, refl)

abbrev publics : List (List ℕ)
publics = codes "OnExit" ∷ codes "OnInit" ∷ codes "main" ∷ []

finds_init : amx_FindPublic publics (codes "OnInit") ≡ some (0, 1)
unfolding amx_FindPublic search strcmp
finds_init = refl

publics-IsSorted : IsSorted publics
unfolding IsSorted strcmp
publics-IsSorted zero (suc zero) l h = refl
publics-IsSorted zero (suc (suc zero)) l h = refl
publics-IsSorted (suc zero) (suc (suc zero)) l h = refl
publics-IsSorted i zero l h = absurd (omega (arith, l))
publics-IsSorted (suc i) (suc zero) l h = absurd (omega (arith, l))
publics-IsSorted (suc (suc i)) (suc (suc zero)) l h = absurd (omega (arith, l))
publics-IsSorted i (suc (suc (suc j))) l h = absurd (omega (arith, h))

amx_FindPublic-get_elem_example :
    ((k : ℕ) × (((k < length publics) × (name_at publics k ≡ codes "main"))
        × (amx_FindPublic publics (codes "main") ≡ some (err_none, k))))
    ⊎ (((k : ℕ) → k < length publics → name_at publics k ≢ codes "main")
        × (amx_FindPublic publics (codes "main") ≡ some (err_notfound, int_max)))
amx_FindPublic-get_elem_example = amx_FindPublic-get_elem publics (codes "main") publics-IsSorted

amx_Push-read_example :
    ((1000 < 400 + stkmargin) × (amx_Push 7 amx ≡ (err_stackerr, amx)))
    ⊎ ((400 + stkmargin ≤ 1000)
        × ((amx' : Amx) × ((amx_Push 7 amx ≡ (err_none, amx')) × Pushed 7 amx amx')))
amx_Push-read_example = amx_Push-read 7 amx amx-IsOrdered (omega arith)

amx_Allot-amx_Release_example :
    ((1000 < 400 + 4 * 10 + stkmargin) × (amx_Allot 10 amx ≡ (err_memory, (none, amx))))
    ⊎ ((amx' : Amx) × ((amx_Allot 10 amx ≡ (err_none, (some 400, amx')))
          × ((amx'.hea ≡ 400 + 4 * 10)
              × ((amx'.hea + stkmargin ≤ amx'.stk) × (amx_Release 400 amx' ≡ (err_none, amx))))))
amx_Allot-amx_Release_example = amx_Allot-amx_Release 10 amx amx-IsOrdered (omega arith)

-- 600 bytes are between the heap and the stack, and 4000 are asked for.
amx_Allot_beyond_example :
    (amx' : Amx) × ((amx_Allot 1000 amx ≡ (err_none, (some 400, amx')))
      × ((amx'.hea ≡ 400 + 4 * 1000) × (amx'.stk < amx'.hea)))
amx_Allot_beyond_example = amx_Allot_beyond 1000 amx amx-IsOrdered (omega arith) (omega arith)

abbrev array : List ℕ
array = 11 ∷ 22 ∷ 33 ∷ []

amx_PushArray-read_example :
    ((1000 < 400 + 4 * 3 + stkmargin) × (amx_PushArray array 3 amx ≡ (err_memory, (none, amx))))
    ⊎ ((amx' : Amx) × ((amx_PushArray array 3 amx ≡ (err_none, (some 400, amx')))
          × (Stored array amx amx' × ((amx'.stk + 4 ≡ 1000) × (read amx'.mem amx'.stk ≡ 400)))))
amx_PushArray-read_example = amx_PushArray-read array amx amx-IsOrdered (omega arith)
