-- ===== src/Codegen/Tests.antt =====
-- The code generator at concrete calls.
use mathlib.Core.Option.{some-injective}
use pawn_x.Prelude.{
  ℕ, zero, suc, ◌+◌, ◌*◌, ◌≡◌, refl, arith, true, false, List, [], ◌∷◌, none, some, length, All,
}
use pawn_x.Prelude.Chars.{codes, itoh, itoh_from}
use pawn_x.Machine.{Program, State, Amx}
use pawn_x.Machine.Sys.{Host}
use pawn_x.Machine.Step.{Env}
use pawn_x.Assembler.{stricmp, name_at, search, findopcode}
use pawn_x.Assembler.Table.{opcodelist, codes_a_to_i, codes_j_to_o, codes_p_to_z}
use pawn_x.Assembler.Number.{Names, take_name}
use pawn_x.Assembler.Emit.{skipwhitespace, written_cells}
use pawn_x.Assembler.Passes.{
  Line, first_pass, second_pass, stripcomment, read_line, read_lines, read_instruction,
}
use pawn_x.Assembler.Decoded.{Holds}
use pawn_x.Codegen.{Gen, in_none, run, begcseg, setlabel}
use pawn_x.Codegen.Access.{alt}
use pawn_x.Codegen.Store.{ldconst}
use pawn_x.Codegen.Control.{jmp_eq0, ffret}
use pawn_x.Codegen.Operator.{Operator, operator}
use pawn_x.Codegen.Call.{Call}
use pawn_x.Codegen.Perform.{perform, perform_all, label_table}
use pawn_x.Codegen.Lines.{text_of, lines_of}
use pawn_x.Codegen.Follow.{IsValid}
use pawn_x.Codegen.Labels.{perform_all-first_pass}
use pawn_x.Codegen.Operation.{Result, value}
use pawn_x.Codegen.Execute.{advance}
use pawn_x.Codegen.Compute.{assembled, operator-advance}

abbrev start : Gen
start = record {
  sent = [];
  code_idx = 0;
  glb_declared = 0;
  litidx = 0;
  curseg = in_none;
  fcurseg = 0;
  fcurrent = 0;
  fline = 1;
  exprtemp = 0;
  ntv_funcid = 0;
  genlocalsbase = 4294967284;
  inlinelink = 0;
  staging = false;
  skipping = false;
  writing = true;
  asmfile = false;
  symbolic = false;
  chkbounds = false;
  inline_const = false;
  async_suspended = false;
  errors = [];
  marked = [];
}

-- `l.0`, a constant, a comparison, a jump to `l.1`, and a return behind that.
abbrev calls : List Call
calls =
    Call.begcseg
    ∷ Call.setlabel 0
    ∷ Call.ldconst 18 alt
    ∷ Call.operator Operator.os_lt
    ∷ Call.jmp_eq0 1
    ∷ Call.setlabel 1
    ∷ Call.ffret false
    ∷ []

abbrev final : Gen
final =
    ffret false (
      setlabel 1
        (jmp_eq0 1 (operator Operator.os_lt (ldconst 18 alt (setlabel 0 (begcseg start))))))

sent_label : text_of (setlabel 1 start).sent ≡ codes "l.1\t\t; 0\n"
unfolding setlabel run text_of itoh itoh_from
sent_label = refl

calls-IsValid : All IsValid calls
unfolding IsValid
calls-IsValid = (tt, (omega arith, (tt, (tt, (tt, (omega arith, (tt, tt)))))))

calls-performed : perform_all calls start ≡ some final
unfolding perform_all perform
calls-performed = refl

perform_all-first_pass_example :
    (ls : List Line) × ((read_lines (lines_of (text_of final.sent)) ≡ some ls)
      × (first_pass ls 0 (0 ∷ 0 ∷ []) ≡ (final.code_idx, label_table calls start (0 ∷ 0 ∷ []))))
perform_all-first_pass_example =
    perform_all-first_pass calls start final (0 ∷ 0 ∷ []) refl calls-IsValid calls-performed

abbrev names : Names
names = record { lbltab = 0 ∷ []; address = λ file name. 64; fcurrent = 0 }

-- `xchg` and `sless` at the start of the code.
abbrev program : Program
program = record {
  code = λ a. elim a [ zero ↦ 35 | suc b ↦ 101 ];
  codesize = 8;
  cod = 0;
  dat = 8;
  hlw = 0;
  stp = 4096;
  flags = 0;
}

lt_held : Holds program 0 (assembled names (text_of (operator Operator.os_lt start).sent))
unfolding operator run text_of lines_of read_lines read_line stripcomment skipwhitespace
    read_instruction take_name findopcode search stricmp name_at opcodelist codes_a_to_i
    codes_j_to_o codes_p_to_z second_pass written_cells
lt_held zero c e = some-injective 35 c e
lt_held (suc zero) c e = some-injective 101 c e
lt_held (suc (suc k)) c e = absurd (cc e)

abbrev host : Host
host = record {
  callback = λ index s. record { error = 0; result = index; mem = s.mem; amx = s.amx };
  debug = none;
}

abbrev env : Env
env = record { memcmp = λ m a b n. 0; host = host }

abbrev fresh : Amx
fresh = record {
  cip = 0;
  frm = 0;
  hea = 0;
  stk = 0;
  pri = 0;
  alt = 0;
  reset_stk = 1000;
  reset_hea = 100;
}

-- ALT is -1, and PRI is 5.
abbrev state : State
state = record {
  mem = λ a. 0;
  pri = 5;
  alt = 4294967295;
  frm = 1016;
  stk = 1000;
  hea = 100;
  cip = 0;
  reset_stk = 1000;
  reset_hea = 100;
  amx = fresh;
}

abbrev text : List ℕ
text = text_of (operator Operator.os_lt start).sent

one_found : value Operator.os_lt 5 4294967295 ≡ some 1
unfolding value
one_found = refl

operator-advance_example :
    (s' : State) × ((advance 2 env program state ≡ some s')
      × (Result state s' 1 (4 * length (assembled names text))
          × ((operator Operator.os_lt start).code_idx ≡ 0 + 4 * length (assembled names text))))
operator-advance_example =
    operator-advance Operator.os_lt start names env program state 1 refl one_found lt_held
