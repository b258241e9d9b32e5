-- ===== src/Peephole/Table/Macros.antt =====
-- The table of sequences in sc7.c: macro instructions.
use pawn_x.Prelude.{◌-◌, List, [], ◌∷◌}
use pawn_x.Peephole.Table.{Sequence, seqsize}

unfoldable pub macros : List Sequence
macros =
    record {
      find = "push.s %1!;$par!push.s %2!;$par!push.s %3!;$par!";
      replace = "push3.s %1 %2 %3!";
      savesize = seqsize 3 3 - seqsize 1 3;
    }
    ∷ record {
      find = "push.s %1!;$par!push.s %2!;$par!";
      replace = "push2.s %1 %2!";
      savesize = seqsize 2 2 - seqsize 1 2;
    }
    ∷ record {
      find =
          "push.adr %1!;$par!push.adr %2!;$par!push.adr %3!;$par!push.adr %4!;$par!push.adr %5!;$par!";
      replace = "push5.adr %1 %2 %3 %4 %5!";
      savesize = seqsize 5 5 - seqsize 1 5;
    }
    ∷ record {
      find = "push.adr %1!;$par!push.adr %2!;$par!push.adr %3!;$par!push.adr %4!;$par!";
      replace = "push4.adr %1 %2 %3 %4!";
      savesize = seqsize 4 4 - seqsize 1 4;
    }
    ∷ record {
      find = "push.adr %1!;$par!push.adr %2!;$par!push.adr %3!;$par!";
      replace = "push3.adr %1 %2 %3!";
      savesize = seqsize 3 3 - seqsize 1 3;
    }
    ∷ record {
      find = "push.adr %1!;$par!push.adr %2!;$par!";
      replace = "push2.adr %1 %2!";
      savesize = seqsize 2 2 - seqsize 1 2;
    }
    ∷ record {
      find = "load.pri %1!load.alt %2!";
      replace = "load.both %1 %2!";
      savesize = seqsize 2 2 - seqsize 1 2;
    }
    ∷ record {
      find = "load.alt %2!load.pri %1!";
      replace = "load.both %1 %2!";
      savesize = seqsize 2 2 - seqsize 1 2;
    }
    ∷ record {
      find = "load.s.pri %1!load.s.alt %2!";
      replace = "load.s.both %1 %2!";
      savesize = seqsize 2 2 - seqsize 1 2;
    }
    ∷ record {
      find = "load.s.alt %2!load.s.pri %1!";
      replace = "load.s.both %1 %2!";
      savesize = seqsize 2 2 - seqsize 1 2;
    }
    ∷ record {
      find = "load.both %1 %2!push.pri!push.alt!";
      replace = "push2 %1 %2!";
      savesize = seqsize 3 2 - seqsize 1 2;
    }
    ∷ record {
      find = "load.s.both %1 %2!push.pri!push.alt!";
      replace = "push2.s %1 %2!";
      savesize = seqsize 3 2 - seqsize 1 2;
    }
    ∷ record {
      find = "const.pri %1!stor.pri %2!";
      replace = "const %2 %1!";
      savesize = seqsize 2 2 - seqsize 1 2;
    }
    ∷ record {
      find = "const.pri %1!stor.s.pri %2!";
      replace = "const.s %2 %1!";
      savesize = seqsize 2 2 - seqsize 1 2;
    }
    ∷ []
