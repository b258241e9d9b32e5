-- ===== src/Peephole/Table/Natives.antt =====
-- The table of sequences in sc7.c: calls of natives and pushed constants.
use pawn_x.Prelude.{◌-◌, List, [], ◌∷◌}
use pawn_x.Peephole.Table.{Sequence, seqsize}

unfoldable pub natives : List Sequence
natives =
    record {
      find = "push.c %1!;$par!push.c %2!;$par!push.c %3!;$par!push.c %4!;$par!push.c %5!;$par!";
      replace = "push5.c %1 %2 %3 %4 %5!";
      savesize = seqsize 5 5 - seqsize 1 5;
    }
    ∷ record {
      find = "push.c %1!;$par!push.c %2!;$par!push.c %3!;$par!push.c %4!;$par!";
      replace = "push4.c %1 %2 %3 %4!";
      savesize = seqsize 4 4 - seqsize 1 4;
    }
    ∷ record {
      find = "push.c %1!;$par!push.c %2!;$par!push.c %3!;$par!";
      replace = "push3.c %1 %2 %3!";
      savesize = seqsize 3 3 - seqsize 1 3;
    }
    ∷ record {
      find = "push.c %1!;$par!push.c %2!;$par!";
      replace = "push2.c %1 %2!";
      savesize = seqsize 2 2 - seqsize 1 2;
    }
    ∷ record {
      find = "push %1!;$par!push %2!;$par!push %3!;$par!push %4!;$par!push %5!;$par!";
      replace = "push5 %1 %2 %3 %4 %5!";
      savesize = seqsize 5 5 - seqsize 1 5;
    }
    ∷ record {
      find = "push %1!;$par!push %2!;$par!push %3!;$par!push %4!;$par!";
      replace = "push4 %1 %2 %3 %4!";
      savesize = seqsize 4 4 - seqsize 1 4;
    }
    ∷ record {
      find = "push %1!;$par!push %2!;$par!push %3!;$par!";
      replace = "push3 %1 %2 %3!";
      savesize = seqsize 3 3 - seqsize 1 3;
    }
    ∷ record {
      find = "push %1!;$par!push %2!;$par!";
      replace = "push2 %1 %2!";
      savesize = seqsize 2 2 - seqsize 1 2;
    }
    ∷ record {
      find = "push.s %1!;$par!push.s %2!;$par!push.s %3!;$par!push.s %4!;$par!push.s %5!;$par!";
      replace = "push5.s %1 %2 %3 %4 %5!";
      savesize = seqsize 5 5 - seqsize 1 5;
    }
    ∷ record {
      find = "push.s %1!;$par!push.s %2!;$par!push.s %3!;$par!push.s %4!;$par!";
      replace = "push4.s %1 %2 %3 %4!";
      savesize = seqsize 4 4 - seqsize 1 4;
    }
    ∷ []
