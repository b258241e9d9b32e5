-- ===== src/Peephole/Table/Loads.antt =====
-- The table of sequences in sc7.c: two operands in PRI and ALT.
use pawn_x.Prelude.{◌-◌, List, [], ◌∷◌}
use pawn_x.Peephole.Table.{Sequence, seqsize}

unfoldable pub loads : List Sequence
loads =
    record {
      find = "load.s.pri %1!push.pri!load.s.pri %2!pop.alt!";
      replace = "load.s.pri %2!load.s.alt %1!";
      savesize = seqsize 4 2 - seqsize 2 2;
    }
    ∷ record {
      find = "load.pri %1!push.pri!load.s.pri %2!pop.alt!";
      replace = "load.s.pri %2!load.alt %1!";
      savesize = seqsize 4 2 - seqsize 2 2;
    }
    ∷ record {
      find = "load.s.pri %1!push.pri!load.pri %2!pop.alt!";
      replace = "load.pri %2!load.s.alt %1!";
      savesize = seqsize 4 2 - seqsize 2 2;
    }
    ∷ record {
      find = "load.pri %1!push.pri!load.pri %2!pop.alt!";
      replace = "load.pri %2!load.alt %1!";
      savesize = seqsize 4 2 - seqsize 2 2;
    }
    ∷ record {
      find = "addr.pri %1!push.pri!load.s.pri %2!pop.alt!";
      replace = "addr.alt %1!load.s.pri %2!";
      savesize = seqsize 4 2 - seqsize 2 2;
    }
    ∷ record {
      find = "addr.pri %1!push.pri!load.pri %2!pop.alt!";
      replace = "addr.alt %1!load.pri %2!";
      savesize = seqsize 4 2 - seqsize 2 2;
    }
    ∷ record {
      find = "const.pri %1!push.pri!load.s.pri %2!pop.alt!";
      replace = "load.s.pri %2!const.alt %1!";
      savesize = seqsize 4 2 - seqsize 2 2;
    }
    ∷ record {
      find = "const.pri %1!push.pri!load.pri %2!pop.alt!";
      replace = "load.pri %2!const.alt %1!";
      savesize = seqsize 4 2 - seqsize 2 2;
    }
    ∷ record {
      find = "load.s.pri %1!push.pri!const.pri %2!pop.alt!";
      replace = "const.pri %2!load.s.alt %1!";
      savesize = seqsize 4 2 - seqsize 2 2;
    }
    ∷ record {
      find = "load.pri %1!push.pri!const.pri %2!pop.alt!";
      replace = "const.pri %2!load.alt %1!";
      savesize = seqsize 4 2 - seqsize 2 2;
    }
    ∷ record {
      find = "addr.pri %1!push.pri!const.pri %2!pop.alt!";
      replace = "addr.alt %1!const.pri %2!";
      savesize = seqsize 4 2 - seqsize 2 2;
    }
    ∷ record {
      find = "addr.pri %1!push.pri!zero.pri!pop.alt!";
      replace = "addr.alt %1!zero.pri!";
      savesize = seqsize 4 1 - seqsize 2 1;
    }
    ∷ record {
      find = "move.pri!push.pri!load.s.pri %1!pop.alt!";
      replace = "load.s.pri %1!";
      savesize = seqsize 4 1 - seqsize 1 1;
    }
    ∷ record {
      find = "move.pri!push.pri!load.pri %1!pop.alt!";
      replace = "load.pri %1!";
      savesize = seqsize 4 1 - seqsize 1 1;
    }
    ∷ record {
      find = "move.pri!push.pri!const.pri %1!pop.alt!";
      replace = "const.pri %1!";
      savesize = seqsize 4 1 - seqsize 1 1;
    }
    ∷ []
