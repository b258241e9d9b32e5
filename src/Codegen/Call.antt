-- ===== src/Codegen/Call.antt =====
-- The calls of the code generator's functions (sc4.c), as the parser makes them. The functions that
-- leave a line open are not among them: their callers in other files go on with it.
use pawn_x.Prelude.{ℕ, Bool, List, Option}
use pawn_x.Codegen.{Symbol, Value, Mark}
use pawn_x.Codegen.Access.{Reg}
use pawn_x.Codegen.Operator.{Operator}

pub data Call : Type 0 where
  begcseg begdseg endfunc dereference moveto1 swap1 getfrm setheap_pri cell2addr cell2addr_alt
        addr2cell char2addr charalign :
      Call
  setline ffret : Bool → Call
  setlabel alignframe memcopy pushval ffswitch ffabort ffbounds jumplabel modstk setstk modheap
        setheap addconst jmp_ne0 jmp_eq0 :
      ℕ → Call
  markexpr : Mark → Call
  startfunc : List ℕ → Bool → Call
  rvalue store inc dec : Value → Call
  address : Symbol → Reg → Call
  loadreg storereg ldconst : ℕ → Reg → Call
  copyarray : Symbol → ℕ → Call
  fillarray : Symbol → ℕ → ℕ → Call
  pushreg popreg : Reg → Call
  ffcase : ℕ → List ℕ → Bool → Call
  ffcaserange : ℕ → ℕ → List ℕ → ℕ → Call
  ffcall : Symbol → Option (List ℕ) → ℕ → Call
  operator : Operator → Call
