-- ===== src/Peephole/Rules.antt =====
-- All sequences of sc7.c, and those that an optimisation level uses.
use Prim.Native.String.{String}
use pawn_x.Prelude.{Bool, true, false, if◌then◌else◌, List, [], ◌∷◌, ◌++◌}
use pawn_x.Peephole.Table.{Sequence}
use pawn_x.Peephole.Table.Loads.{loads}
use pawn_x.Peephole.Table.Chains.{chains}
use pawn_x.Peephole.Table.Entries.{entries}
use pawn_x.Peephole.Table.Arrays.{arrays}
use pawn_x.Peephole.Table.Moves.{moves}
use pawn_x.Peephole.Table.Pushes.{pushes}
use pawn_x.Peephole.Table.Constants.{constants}
use pawn_x.Peephole.Table.Jumps.{jumps}
use pawn_x.Peephole.Table.Counting.{counting}
use pawn_x.Peephole.Table.Natives.{natives}
use pawn_x.Peephole.Table.Macros.{macros}

-- `sequences`, without the end mark.
unfoldable pub sequences : List Sequence
sequences =
    loads
    ++ (chains
        ++ (entries
            ++ (arrays
                ++ (moves
                    ++ (pushes ++ (constants ++ (jumps ++ (counting ++ (natives ++ macros)))))))))

-- `*sequences[seq].find=='\0'`, the separator.
abbrev pub is_separator : Sequence → Bool
is_separator q = elim (q.find) [ String.[] ↦ true | String.◌∷◌ c s ↦ false ]

-- The sequences that the loop of `stgopt` tries in turn: with sOPTIMIZE_NOMACRO up to the separator,
-- otherwise all others.
unfoldable pub tried : Bool → List Sequence → List Sequence
tried nomacro [] = []
tried nomacro (q ∷ qs) =
    let rest = tried nomacro qs in if is_separator q then if nomacro then [] else rest else q ∷ rest
