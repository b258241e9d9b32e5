-- ===== src/Peephole/Table/Entries.antt =====
-- The table of sequences in sc7.c: the entry to chained operators, and moves to ALT.
use pawn_x.Prelude.{◌-◌, List, [], ◌∷◌}
use pawn_x.Peephole.Table.{Sequence, seqsize}

unfoldable pub entries : List Sequence
entries =
    record {
      find = "load.s.pri %1!load.s.alt %2!xchg!";
      replace = "load.s.pri %2!load.s.alt %1!";
      savesize = seqsize 3 2 - seqsize 2 2;
    }
    ∷ record {
      find = "load.s.pri %1!load.alt %2!xchg!";
      replace = "load.pri %2!load.s.alt %1!";
      savesize = seqsize 3 2 - seqsize 2 2;
    }
    ∷ record {
      find = "load.s.pri %1!const.alt %2!xchg!";
      replace = "const.pri %2!load.s.alt %1!";
      savesize = seqsize 3 2 - seqsize 2 2;
    }
    ∷ record {
      find = "load.pri %1!load.s.alt %2!xchg!";
      replace = "load.s.pri %2!load.alt %1!";
      savesize = seqsize 3 2 - seqsize 2 2;
    }
    ∷ record {
      find = "load.pri %1!load.alt %2!xchg!";
      replace = "load.pri %2!load.alt %1!";
      savesize = seqsize 3 2 - seqsize 2 2;
    }
    ∷ record {
      find = "load.pri %1!const.alt %2!xchg!";
      replace = "const.pri %2!load.alt %1!";
      savesize = seqsize 3 2 - seqsize 2 2;
    }
    ∷ record {
      find = "const.pri %1!load.s.alt %2!xchg!";
      replace = "load.s.pri %2!const.alt %1!";
      savesize = seqsize 3 2 - seqsize 2 2;
    }
    ∷ record {
      find = "const.pri %1!load.alt %2!xchg!";
      replace = "load.pri %2!const.alt %1!";
      savesize = seqsize 3 2 - seqsize 2 2;
    }
    ∷ record {
      find = "move.alt!const.pri %1!xchg!";
      replace = "const.alt %1!";
      savesize = seqsize 3 1 - seqsize 1 1;
    }
    ∷ record {
      find = "move.alt!load.pri %1!xchg!";
      replace = "load.alt %1!";
      savesize = seqsize 3 1 - seqsize 1 1;
    }
    ∷ record {
      find = "move.alt!load.s.pri %1!xchg!";
      replace = "load.s.alt %1!";
      savesize = seqsize 3 1 - seqsize 1 1;
    }
    ∷ record {
      find = "lref.pri %1!move.alt!load.pri %2!";
      replace = "lref.alt %1!load.pri %2!";
      savesize = seqsize 3 2 - seqsize 2 2;
    }
    ∷ record {
      find = "lref.pri %1!move.alt!load.s.pri %2!";
      replace = "lref.alt %1!load.s.pri %2!";
      savesize = seqsize 3 2 - seqsize 2 2;
    }
    ∷ record {
      find = "lref.pri %1!move.alt!const.pri %2!";
      replace = "lref.alt %1!const.pri %2!";
      savesize = seqsize 3 2 - seqsize 2 2;
    }
    ∷ record {
      find = "lref.s.pri %1!move.alt!load.pri %2!";
      replace = "lref.s.alt %1!load.pri %2!";
      savesize = seqsize 3 2 - seqsize 2 2;
    }
    ∷ record {
      find = "lref.s.pri %1!move.alt!load.s.pri %2!";
      replace = "lref.s.alt %1!load.s.pri %2!";
      savesize = seqsize 3 2 - seqsize 2 2;
    }
    ∷ record {
      find = "lref.s.pri %1!move.alt!const.pri %2!";
      replace = "lref.s.alt %1!const.pri %2!";
      savesize = seqsize 3 2 - seqsize 2 2;
    }
    ∷ []
