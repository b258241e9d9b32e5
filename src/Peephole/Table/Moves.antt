-- ===== src/Peephole/Table/Moves.antt =====
-- The table of sequences in sc7.c: shorter indexing, packed arrays, local variables, and moves through the stack.
use pawn_x.Prelude.{◌-◌, List, [], ◌∷◌}
use pawn_x.Peephole.Table.{Sequence, seqsize}

unfoldable pub moves : List Sequence
moves =
    record {
      find = "addr.pri %1!push.pri!load.s.pri %2!bounds %3!pop.alt!";
      replace = "addr.alt %1!load.s.pri %2!bounds %3!";
      savesize = seqsize 5 3 - seqsize 3 3;
    }
    ∷ record {
      find = "const.pri %1!push.pri!load.s.pri %2!bounds %3!pop.alt!";
      replace = "const.alt %1!load.s.pri %2!bounds %3!";
      savesize = seqsize 5 3 - seqsize 3 3;
    }
    ∷ record {
      find = ";$lcl %1 %2!stack -4!const.pri %3!stor.s.pri %2!;$exp!";
      replace = ";$lcl %1 %2!push.c %3!;$exp!";
      savesize = seqsize 3 3 - seqsize 1 1;
    }
    ∷ record {
      find = ";$lcl %1 %2!stack -4!zero.pri!stor.s.pri %2!;$exp!";
      replace = ";$lcl %1 %2!push.c 0!;$exp!";
      savesize = seqsize 3 2 - seqsize 1 1;
    }
    ∷ record {
      find = "push.pri!load.s.pri %1!pop.alt!";
      replace = "move.alt!load.s.pri %1!";
      savesize = seqsize 3 1 - seqsize 2 1;
    }
    ∷ record {
      find = "push.pri!load.pri %1!pop.alt!";
      replace = "move.alt!load.pri %1!";
      savesize = seqsize 3 1 - seqsize 2 1;
    }
    ∷ record {
      find = "push.pri!const.pri %1!pop.alt!";
      replace = "move.alt!const.pri %1!";
      savesize = seqsize 3 1 - seqsize 2 1;
    }
    ∷ record {
      find = "push.pri!zero.pri!pop.alt!";
      replace = "move.alt!zero.pri!";
      savesize = seqsize 3 0 - seqsize 2 0;
    }
    ∷ record {
      find = "push.pri!load.i!pop.alt!";
      replace = "move.alt!load.i!";
      savesize = seqsize 3 0 - seqsize 2 0;
    }
    ∷ record {
      find = "push.pri!pop.alt!";
      replace = "move.alt!";
      savesize = seqsize 2 0 - seqsize 1 0;
    }
    ∷ record {
      find = "move.alt!load.s.pri %1!add!";
      replace = "load.s.alt %1!add!";
      savesize = seqsize 3 1 - seqsize 2 1;
    }
    ∷ record {
      find = "move.alt!load.pri %1!add!";
      replace = "load.alt %1!add!";
      savesize = seqsize 3 1 - seqsize 2 1;
    }
    ∷ record {
      find = "move.alt!const.pri %1!add!";
      replace = "const.alt %1!add!";
      savesize = seqsize 3 1 - seqsize 2 1;
    }
    ∷ record {
      find = "move.alt!load.s.pri %1!sub.alt!";
      replace = "load.s.alt %1!sub!";
      savesize = seqsize 3 1 - seqsize 2 1;
    }
    ∷ record {
      find = "move.alt!load.pri %1!sub.alt!";
      replace = "load.alt %1!sub!";
      savesize = seqsize 3 1 - seqsize 2 1;
    }
    ∷ record {
      find = "move.alt!const.pri %1!sub.alt!";
      replace = "const.alt %1!sub!";
      savesize = seqsize 3 1 - seqsize 2 1;
    }
    ∷ []
