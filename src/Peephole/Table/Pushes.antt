-- ===== src/Peephole/Table/Pushes.antt =====
-- The table of sequences in sc7.c: pushed operands and parameters.
use pawn_x.Prelude.{◌-◌, List, [], ◌∷◌}
use pawn_x.Peephole.Table.{Sequence, seqsize}

unfoldable pub pushes : List Sequence
pushes =
    record {
      find = "const.pri %1!const.alt %2!push.pri!push.alt!";
      replace = "push.c %1!push.c %2!";
      savesize = seqsize 4 2 - seqsize 2 2;
    }
    ∷ record {
      find = "const.pri %1!const.alt %2!push.alt!push.pri!";
      replace = "push.c %2!push.c %1!";
      savesize = seqsize 4 2 - seqsize 2 2;
    }
    ∷ record {
      find = "const.pri %1!load.alt %2!push.pri!push.alt!";
      replace = "push.c %1!push %2!";
      savesize = seqsize 4 2 - seqsize 2 2;
    }
    ∷ record {
      find = "const.pri %1!load.alt %2!push.alt!push.pri!";
      replace = "push %2!push.c %1!";
      savesize = seqsize 4 2 - seqsize 2 2;
    }
    ∷ record {
      find = "load.pri %1!const.alt %2!push.pri!push.alt!";
      replace = "push %1!push.c %2!";
      savesize = seqsize 4 2 - seqsize 2 2;
    }
    ∷ record {
      find = "load.pri %1!const.alt %2!push.alt!push.pri!";
      replace = "push.c %2!push %1!";
      savesize = seqsize 4 2 - seqsize 2 2;
    }
    ∷ record {
      find = "load.pri %1!load.alt %2!push.pri!push.alt!";
      replace = "push %1!push %2!";
      savesize = seqsize 4 2 - seqsize 2 2;
    }
    ∷ record {
      find = "load.pri %1!load.alt %2!push.alt!push.pri!";
      replace = "push %2!push %1!";
      savesize = seqsize 4 2 - seqsize 2 2;
    }
    ∷ record {
      find = "load.s.pri %1!push.pri!;$par!";
      replace = "push.s %1!;$par!";
      savesize = seqsize 2 1 - seqsize 1 1;
    }
    ∷ record {
      find = "load.pri %1!push.pri!;$par!";
      replace = "push %1!;$par!";
      savesize = seqsize 2 1 - seqsize 1 1;
    }
    ∷ record {
      find = "const.pri %1!push.pri!;$par!";
      replace = "push.c %1!;$par!";
      savesize = seqsize 2 1 - seqsize 1 1;
    }
    ∷ record {
      find = "zero.pri!push.pri!;$par!";
      replace = "push.c 0!;$par!";
      savesize = seqsize 2 0 - seqsize 1 1;
    }
    ∷ record {
      find = "addr.pri %1!push.pri!;$par!";
      replace = "push.adr %1!;$par!";
      savesize = seqsize 2 1 - seqsize 1 1;
    }
    ∷ record {
      find = "move.pri!push.pri!";
      replace = "push.alt!";
      savesize = seqsize 2 0 - seqsize 1 0;
    }
    ∷ []
