-- ===== src/Peephole/Table/Arrays.antt =====
-- The table of sequences in sc7.c: array indexing.
use pawn_x.Prelude.{◌-◌, List, [], ◌∷◌}
use pawn_x.Peephole.Table.{Sequence, seqsize}

unfoldable pub arrays : List Sequence
arrays =
    record {
      find = "addr.pri %1!push.pri!load.s.pri %2!bounds %3!shl.c.pri 2!pop.alt!add!load.i!";
      replace = "addr.alt %1!load.s.pri %2!bounds %3!lidx!";
      savesize = seqsize 8 4 - seqsize 4 3;
    }
    ∷ record {
      find = "const.pri %1!push.pri!load.s.pri %2!bounds %3!shl.c.pri 2!pop.alt!add!load.i!";
      replace = "const.alt %1!load.s.pri %2!bounds %3!lidx!";
      savesize = seqsize 8 4 - seqsize 4 3;
    }
    ∷ record {
      find = "addr.pri %1!push.pri!load.s.pri %2!shl.c.pri 2!pop.alt!add!load.i!";
      replace = "addr.alt %1!load.s.pri %2!lidx!";
      savesize = seqsize 7 3 - seqsize 3 2;
    }
    ∷ record {
      find = "const.pri %1!push.pri!load.s.pri %2!shl.c.pri 2!pop.alt!add!load.i!";
      replace = "const.alt %1!load.s.pri %2!lidx!";
      savesize = seqsize 7 3 - seqsize 3 2;
    }
    ∷ record {
      find = "addr.pri %1!push.pri!load.s.pri %2!bounds %3!shl.c.pri %4!pop.alt!add!load.i!";
      replace = "addr.alt %1!load.s.pri %2!bounds %3!lidx.b %4!";
      savesize = seqsize 8 4 - seqsize 4 4;
    }
    ∷ record {
      find = "const.pri %1!push.pri!load.s.pri %2!bounds %3!shl.c.pri %4!pop.alt!add!load.i!";
      replace = "const.alt %1!load.s.pri %2!bounds %3!lidx.b %4!";
      savesize = seqsize 8 4 - seqsize 4 4;
    }
    ∷ record {
      find = "addr.pri %1!push.pri!load.s.pri %2!shl.c.pri %3!pop.alt!add!load.i!";
      replace = "addr.alt %1!load.s.pri %2!lidx.b %3!";
      savesize = seqsize 7 3 - seqsize 3 3;
    }
    ∷ record {
      find = "const.pri %1!push.pri!load.s.pri %2!shl.c.pri %3!pop.alt!add!load.i!";
      replace = "const.alt %1!load.s.pri %2!lidx.b %3!";
      savesize = seqsize 7 3 - seqsize 3 3;
    }
    ∷ record {
      find = "addr.pri %1!push.pri!load.s.pri %2!bounds %3!shl.c.pri 2!pop.alt!add!";
      replace = "addr.alt %1!load.s.pri %2!bounds %3!idxaddr!";
      savesize = seqsize 7 4 - seqsize 4 3;
    }
    ∷ record {
      find = "const.pri %1!push.pri!load.s.pri %2!bounds %3!shl.c.pri 2!pop.alt!add!";
      replace = "const.alt %1!load.s.pri %2!bounds %3!idxaddr!";
      savesize = seqsize 7 4 - seqsize 4 3;
    }
    ∷ record {
      find = "addr.pri %1!push.pri!load.s.pri %2!shl.c.pri 2!pop.alt!add!";
      replace = "addr.alt %1!load.s.pri %2!idxaddr!";
      savesize = seqsize 6 3 - seqsize 3 2;
    }
    ∷ record {
      find = "const.pri %1!push.pri!load.s.pri %2!shl.c.pri 2!pop.alt!add!";
      replace = "const.alt %1!load.s.pri %2!idxaddr!";
      savesize = seqsize 6 3 - seqsize 3 2;
    }
    ∷ record {
      find = "addr.pri %1!push.pri!load.s.pri %2!bounds %3!shl.c.pri %4!pop.alt!add!";
      replace = "addr.alt %1!load.s.pri %2!bounds %3!idxaddr.b %4!";
      savesize = seqsize 7 4 - seqsize 4 4;
    }
    ∷ record {
      find = "const.pri %1!push.pri!load.s.pri %2!bounds %3!shl.c.pri %4!pop.alt!add!";
      replace = "const.alt %1!load.s.pri %2!bounds %3!idxaddr.b %4!";
      savesize = seqsize 7 4 - seqsize 4 4;
    }
    ∷ record {
      find = "addr.pri %1!push.pri!load.s.pri %2!shl.c.pri %3!pop.alt!add!";
      replace = "addr.alt %1!load.s.pri %2!idxaddr.b %3!";
      savesize = seqsize 6 3 - seqsize 3 3;
    }
    ∷ record {
      find = "const.pri %1!push.pri!load.s.pri %2!shl.c.pri %3!pop.alt!add!";
      replace = "const.alt %1!load.s.pri %2!idxaddr.b %3!";
      savesize = seqsize 6 3 - seqsize 3 3;
    }
    ∷ record {
      find = "shl.c.pri 2!pop.alt!add!loadi!";
      replace = "pop.alt!lidx!";
      savesize = seqsize 4 1 - seqsize 2 0;
    }
    ∷ record {
      find = "shl.c.pri 2!pop.alt!add!";
      replace = "pop.alt!idxaddr!";
      savesize = seqsize 3 1 - seqsize 2 0;
    }
    ∷ record {
      find = "shl.c.pri %1!pop.alt!add!loadi!";
      replace = "pop.alt!lidx.b %1!";
      savesize = seqsize 4 1 - seqsize 2 1;
    }
    ∷ record {
      find = "shl.c.pri %1!pop.alt!add!";
      replace = "pop.alt!idxaddr.b %1!";
      savesize = seqsize 3 1 - seqsize 2 1;
    }
    ∷ []
