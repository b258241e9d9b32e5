-- ===== src/Peephole/Table/Constants.antt =====
-- The table of sequences in sc7.c: operations on constants.
use pawn_x.Prelude.{◌-◌, List, [], ◌∷◌}
use pawn_x.Peephole.Table.{Sequence, seqsize}

unfoldable pub constants : List Sequence
constants =
    record {
      find = "const.alt %1!add!";
      replace = "add.c %1!";
      savesize = seqsize 2 1 - seqsize 1 1;
    }
    ∷ record {
      find = "const.alt %1!smul!";
      replace = "smul.c %1!";
      savesize = seqsize 2 1 - seqsize 1 1;
    }
    ∷ record {
      find = "const.alt %1!eq!";
      replace = "eq.c.pri %1!";
      savesize = seqsize 2 1 - seqsize 1 1;
    }
    ∷ record {
      find = "const.pri %1!load.s.alt %2!sub!";
      replace = "load.s.pri %2!add.c -%1!";
      savesize = seqsize 3 2 - seqsize 2 2;
    }
    ∷ record {
      find = "const.pri %1!load.alt %2!sub.alt!";
      replace = "load.pri %2!add.c -%1!";
      savesize = seqsize 3 2 - seqsize 2 2;
    }
    ∷ record {
      find = "add.c %1!add.c %2!";
      replace = "add.c %1+%2!";
      savesize = seqsize 2 2 - seqsize 1 1;
    }
    ∷ []
