-- ===== src/Peephole/Table/Chains.antt =====
-- The table of sequences in sc7.c: chained relational operators.
use pawn_x.Prelude.{◌-◌, List, [], ◌∷◌}
use pawn_x.Peephole.Table.{Sequence, seqsize}

unfoldable pub chains : List Sequence
chains =
    record {
      find = "xchg!sgrtr!swap.alt!and!pop.alt!;$exp!";
      replace = "sless!pop.alt!and!;$exp!";
      savesize = seqsize 5 0 - seqsize 3 0;
    }
    ∷ record {
      find = "xchg!sless!swap.alt!and!pop.alt!;$exp!";
      replace = "sgrtr!pop.alt!and!;$exp!";
      savesize = seqsize 5 0 - seqsize 3 0;
    }
    ∷ record {
      find = "xchg!sgeq!swap.alt!and!pop.alt!;$exp!";
      replace = "sleq!pop.alt!and!;$exp!";
      savesize = seqsize 5 0 - seqsize 3 0;
    }
    ∷ record {
      find = "xchg!sleq!swap.alt!and!pop.alt!;$exp!";
      replace = "sgeq!pop.alt!and!;$exp!";
      savesize = seqsize 5 0 - seqsize 3 0;
    }
    ∷ record {
      find = "xchg!sgrtr!swap.alt!and!pop.alt!jzer %1!";
      replace = "sless!pop.alt!and!jzer %1!";
      savesize = seqsize 5 0 - seqsize 3 0;
    }
    ∷ record {
      find = "xchg!sless!swap.alt!and!pop.alt!jzer %1!";
      replace = "sgrtr!pop.alt!and!jzer %1!";
      savesize = seqsize 5 0 - seqsize 3 0;
    }
    ∷ record {
      find = "xchg!sgeq!swap.alt!and!pop.alt!jzer %1!";
      replace = "sleq!pop.alt!and!jzer %1!";
      savesize = seqsize 5 0 - seqsize 3 0;
    }
    ∷ record {
      find = "xchg!sleq!swap.alt!and!pop.alt!jzer %1!";
      replace = "sgeq!pop.alt!and!jzer %1!";
      savesize = seqsize 5 0 - seqsize 3 0;
    }
    ∷ record {
      find = "xchg!sgrtr!jzer %1!;$exp!";
      replace = "jsgeq %1!;$exp!";
      savesize = seqsize 3 1 - seqsize 1 1;
    }
    ∷ record {
      find = "xchg!sless!jzer %1!;$exp!";
      replace = "jsleq %1!;$exp!";
      savesize = seqsize 3 1 - seqsize 1 1;
    }
    ∷ record {
      find = "xchg!sgeq!jzer %1!;$exp!";
      replace = "jsgrtr %1!;$exp!";
      savesize = seqsize 3 1 - seqsize 1 1;
    }
    ∷ record {
      find = "xchg!sleq!jzer %1!;$exp!";
      replace = "jsless %1!;$exp!";
      savesize = seqsize 3 1 - seqsize 1 1;
    }
    ∷ record {
      find = "xchg!sgrtr!;$exp!";
      replace = "sless!;$exp!";
      savesize = seqsize 2 0 - seqsize 1 0;
    }
    ∷ record {
      find = "xchg!sless!;$exp!";
      replace = "sgrtr!;$exp!";
      savesize = seqsize 2 0 - seqsize 1 0;
    }
    ∷ record {
      find = "xchg!sgeq!;$exp!";
      replace = "sleq!;$exp!";
      savesize = seqsize 2 0 - seqsize 1 0;
    }
    ∷ record {
      find = "xchg!sleq!;$exp!";
      replace = "sgeq!;$exp!";
      savesize = seqsize 2 0 - seqsize 1 0;
    }
    ∷ []
