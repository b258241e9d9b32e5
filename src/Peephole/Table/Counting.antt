-- ===== src/Peephole/Table/Counting.antt =====
-- The table of sequences in sc7.c: increments, decrements and zeros.
use pawn_x.Prelude.{◌-◌, List, [], ◌∷◌}
use pawn_x.Peephole.Table.{Sequence, seqsize}

unfoldable pub counting : List Sequence
counting =
    record {
      find = "inc %1!load.pri %1!;$exp!";
      replace = "inc %1!;$exp!";
      savesize = seqsize 2 2 - seqsize 1 1;
    }
    ∷ record {
      find = "load.pri %1!inc %1!;$exp!";
      replace = "inc %1!;$exp!";
      savesize = seqsize 2 2 - seqsize 1 1;
    }
    ∷ record {
      find = "inc.s %1!load.s.pri %1!;$exp!";
      replace = "inc.s %1!;$exp!";
      savesize = seqsize 2 2 - seqsize 1 1;
    }
    ∷ record {
      find = "load.s.pri %1!inc.s %1!;$exp!";
      replace = "inc.s %1!;$exp!";
      savesize = seqsize 2 2 - seqsize 1 1;
    }
    ∷ record {
      find = "dec %1!load.pri %1!;$exp!";
      replace = "dec %1!;$exp!";
      savesize = seqsize 2 2 - seqsize 1 1;
    }
    ∷ record {
      find = "load.pri %1!dec %1!;$exp!";
      replace = "dec %1!;$exp!";
      savesize = seqsize 2 2 - seqsize 1 1;
    }
    ∷ record {
      find = "dec.s %1!load.s.pri %1!;$exp!";
      replace = "dec.s %1!;$exp!";
      savesize = seqsize 2 2 - seqsize 1 1;
    }
    ∷ record {
      find = "load.s.pri %1!dec.s %1!;$exp!";
      replace = "dec.s %1!;$exp!";
      savesize = seqsize 2 2 - seqsize 1 1;
    }
    ∷ record {
      find = "const.pri 0!stor.pri %1!;$exp!";
      replace = "zero %1!;$exp!";
      savesize = seqsize 2 2 - seqsize 1 1;
    }
    ∷ record {
      find = "const.pri 0!stor.s.pri %1!;$exp!";
      replace = "zero.s %1!;$exp!";
      savesize = seqsize 2 2 - seqsize 1 1;
    }
    ∷ record {
      find = "zero.pri!stor.pri %1!;$exp!";
      replace = "zero %1!;$exp!";
      savesize = seqsize 2 1 - seqsize 1 1;
    }
    ∷ record {
      find = "zero.pri!stor.s.pri %1!;$exp!";
      replace = "zero.s %1!;$exp!";
      savesize = seqsize 2 1 - seqsize 1 1;
    }
    ∷ record { find = "const.pri 0!"; replace = "zero.pri!"; savesize = seqsize 1 1 - seqsize 1 0 }
    ∷ record { find = "const.alt 0!"; replace = "zero.alt!"; savesize = seqsize 1 1 - seqsize 1 0 }
    ∷ record { find = ""; replace = ""; savesize = 0 }
    ∷ record {
      find = "push.c %1!sysreq.c %2!stack %3!";
      replace = "sysreq.n %2 %1!";
      savesize = seqsize 3 3 - seqsize 1 2;
    }
    ∷ []
