-- ===== src/Peephole/Table/Jumps.antt =====
-- The table of sequences in sc7.c: compare and jump.
use pawn_x.Prelude.{◌-◌, List, [], ◌∷◌}
use pawn_x.Peephole.Table.{Sequence, seqsize}

unfoldable pub jumps : List Sequence
jumps =
    record { find = "eq!jzer %1!"; replace = "jneq %1!"; savesize = seqsize 2 1 - seqsize 1 1 }
    ∷ record { find = "eq!jnz %1!"; replace = "jeq %1!"; savesize = seqsize 2 1 - seqsize 1 1 }
    ∷ record { find = "neq!jzer %1!"; replace = "jeq %1!"; savesize = seqsize 2 1 - seqsize 1 1 }
    ∷ record { find = "neq!jnz %1!"; replace = "jneq %1!"; savesize = seqsize 2 1 - seqsize 1 1 }
    ∷ record {
      find = "sless!jzer %1!";
      replace = "jsgeq %1!";
      savesize = seqsize 2 1 - seqsize 1 1;
    }
    ∷ record {
      find = "sless!jnz %1!";
      replace = "jsless %1!";
      savesize = seqsize 2 1 - seqsize 1 1;
    }
    ∷ record {
      find = "sleq!jzer %1!";
      replace = "jsgrtr %1!";
      savesize = seqsize 2 1 - seqsize 1 1;
    }
    ∷ record { find = "sleq!jnz %1!"; replace = "jsleq %1!"; savesize = seqsize 2 1 - seqsize 1 1 }
    ∷ record {
      find = "sgrtr!jzer %1!";
      replace = "jsleq %1!";
      savesize = seqsize 2 1 - seqsize 1 1;
    }
    ∷ record {
      find = "sgrtr!jnz %1!";
      replace = "jsgrtr %1!";
      savesize = seqsize 2 1 - seqsize 1 1;
    }
    ∷ record {
      find = "sgeq!jzer %1!";
      replace = "jsless %1!";
      savesize = seqsize 2 1 - seqsize 1 1;
    }
    ∷ record { find = "sgeq!jnz %1!"; replace = "jsgeq %1!"; savesize = seqsize 2 1 - seqsize 1 1 }
    ∷ record {
      find = "zero.alt!jeq %1!";
      replace = "jzer %1!";
      savesize = seqsize 2 1 - seqsize 1 1;
    }
    ∷ record {
      find = "zero.alt!jneq %1!";
      replace = "jnz %1!";
      savesize = seqsize 2 1 - seqsize 1 1;
    }
    ∷ []
