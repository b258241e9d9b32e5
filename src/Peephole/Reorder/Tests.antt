-- ===== src/Peephole/Reorder/Tests.antt =====
-- The reordering of the staging buffer at a concrete call.
use Prim.Native.String.{String}
use pawn_x.Prelude.{ℕ, ◌≡◌, refl, true, List, [], ◌∷◌, ◌++◌, some, none}
use pawn_x.Prelude.Chars.{codes}
use pawn_x.Peephole.Reorder.{scan_args, find_arg, arg_count, run_args, plain_block, stgstring}

abbrev line_of : String → List ℕ
line_of s = codes s ++ (10 ∷ 0 ∷ [])

-- Two arguments, the second with a call in it; what stands around them stays in its place.
arguments :
    stgstring 60 (
      line_of "a"
      ++ (1
          ∷ 128
          ∷ (line_of "x"
              ++ (129
                  ∷ (line_of "y"
                      ++ (1 ∷ 128 ∷ (line_of "z" ++ (2 ∷ (line_of "f" ++ (2 ∷ line_of "g"))))))))))
    ≡ some (
      line_of "a" ∷ line_of "y" ∷ line_of "z" ∷ line_of "f" ∷ line_of "x" ∷ line_of "g" ∷ [],
      true,
    )
unfolding stgstring scan_args find_arg arg_count run_args plain_block
arguments = refl

-- An argument that is never marked, and a bracket that is never closed.
unmarked :
    (stgstring 60 (1 ∷ 129 ∷ (line_of "x" ++ (2 ∷ []))) ≡ none)
    × (stgstring 60 (1 ∷ 128 ∷ line_of "x") ≡ none)
unfolding stgstring scan_args find_arg arg_count run_args plain_block
unmarked = (refl, refl)
