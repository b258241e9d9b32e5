-- ===== src/Codegen.antt =====
-- The code generator of compiler/source/compiler/sc4.c: each function, with the strings that it sends to
-- `stgwrite`, what it adds to `code_idx`, and the other globals that it reads and writes. A cell is a
-- number below 2 ^ 32, and a text the list of its bytes.
pub mod Access
pub mod Store
pub mod Change
pub mod Control
pub mod Frame
pub mod Operator
pub mod Lines
pub mod Clean
pub mod Writes
pub mod Sends
pub mod Line
pub mod Plain
pub mod Name
pub mod Emits
pub mod Call
pub mod Perform
pub mod Labels
pub mod Follow
pub mod Cells
pub mod Execute
pub mod Straight
pub mod Compute
pub mod Operation
mod Tests
use Prim.Native.String.{String}
use pawn_x.Prelude.{
  ℕ, ◌+◌, ◌-◌, ◌*◌, Bool, true, false, ◌&&◌, ◌||◌, not, ◌==◌, if◌then◌else◌, List, [], ◌∷◌, Option,
  none, some,
}
use pawn_x.Prelude.Chars.{codes, itoh}

-- `ident` and `vclass` of symbols and values, as far as the functions tell them apart.
pub data Ident : Type 0 where
  variable reference array refarray arraycell arraychar : Ident

pub data Class : Type 0 where
  global local static : Class

-- A symbol, with the flags uLIFTED, uCAPTURED, uNATIVE and uREAD of `usage`, and what
-- `funcdisplayname` makes of its name. `id` tells symbols apart.
pub record Symbol : Type 0 where
  pub id : ℕ
  pub ident : Ident
  pub vclass : Class
  pub addr : ℕ
  pub name : List ℕ
  pub symname : List ℕ
  pub lifted : Bool
  pub captured : Bool
  pub native : Bool
  pub read : Bool

pub record Value : Type 0 where
  pub ident : Ident
  pub sym : Option Symbol

-- What `markusage` is called with here.
pub data Usage : Type 0 where
  read written : Usage

-- `curseg`
pub data Curseg : Type 0 where
  in_none in_cseg in_dseg : Curseg

-- The globals. `sent` is what `stgwrite` was called with, `errors` the numbers that `error` was called
-- with, and `marked` the symbols and flags of `markusage`, all with the last call first. `skipping`
-- and `writing` are `sc_status==statSKIP` and `statWRITE`; `symbolic` and `chkbounds` are bits of
-- `sc_debug`; `async_suspended` is that `curfunc` is async and `pc_async_suspended` is set.
pub record Gen : Type 0 where
  pub sent : List (List ℕ)
  pub code_idx : ℕ
  pub glb_declared : ℕ
  pub litidx : ℕ
  pub curseg : Curseg
  pub fcurseg : ℕ
  pub fcurrent : ℕ
  pub fline : ℕ
  pub exprtemp : ℕ
  pub ntv_funcid : ℕ
  pub genlocalsbase : ℕ
  pub inlinelink : ℕ
  pub staging : Bool
  pub skipping : Bool
  pub writing : Bool
  pub asmfile : Bool
  pub symbolic : Bool
  pub chkbounds : Bool
  pub inline_const : Bool
  pub async_suspended : Bool
  pub errors : List ℕ
  pub marked : List (ℕ × Usage)

-- `opcodes(n)` and `opargs(n)`
abbrev pub opcodes : ℕ → ℕ
opcodes n = n * 4

abbrev pub opargs : ℕ → ℕ
opargs n = n * 4

-- Steps one after the other.
unfoldable pub run : List (Gen → Gen) → Gen → Gen
run [] g = g
run (f ∷ fs) g = run fs (f g)

abbrev pub put : List ℕ → Gen → Gen
put s g = record g { sent = s ∷ g.sent }

-- `stgwrite` of a literal.
abbrev pub stgwrite : String → Gen → Gen
stgwrite s g = put (codes s) g

-- `code_idx += n`
abbrev pub count : ℕ → Gen → Gen
count n g = record g { code_idx = g.code_idx + n }

abbrev pub error : ℕ → Gen → Gen
error n g = record g { errors = n ∷ g.errors }

abbrev pub when : Bool → (Gen → Gen) → Gen → Gen
when b f g = if b then f g else g

abbrev pub markusage : Symbol → Usage → Gen → Gen
markusage sym usage g = record g { marked = (sym.id, usage) ∷ g.marked }

-- `outval`
abbrev pub outval : ℕ → Bool → Gen → Gen
outval val newline g = let g' = put (itoh val) g in if newline then stgwrite "\n" g' else g'

abbrev is_cseg : Curseg → Bool
is_cseg in_none = false
is_cseg in_cseg = true
is_cseg in_dseg = false

abbrev is_dseg : Curseg → Bool
is_dseg in_none = false
is_dseg in_cseg = false
is_dseg in_dseg = true

unfoldable pub begcseg : Gen → Gen
unfolding run
begcseg g =
    if not g.skipping && (not (is_cseg g.curseg) || not (g.fcurrent == g.fcurseg))
    then record (run
        (stgwrite "\n"
          ∷ stgwrite "CODE "
          ∷ outval g.fcurrent false
          ∷ stgwrite "\t; "
          ∷ outval g.code_idx true
          ∷ [])
        g) { curseg = in_cseg; fcurseg = g.fcurrent }
    else g

unfoldable pub begdseg : Gen → Gen
unfolding run
begdseg g =
    if not g.skipping && (not (is_dseg g.curseg) || not (g.fcurrent == g.fcurseg))
    then record (run
        (stgwrite "\n"
          ∷ stgwrite "DATA "
          ∷ outval g.fcurrent false
          ∷ stgwrite "\t; "
          ∷ outval ((g.glb_declared - g.litidx) * 4) true
          ∷ [])
        g) { curseg = in_dseg; fcurseg = g.fcurrent }
    else g

-- `setline`; `g.code_idx` is written before it grows.
unfoldable pub setline : Bool → Gen → Gen
unfolding run
setline chkbounds g =
    let commented = when g.asmfile (run (stgwrite "\t; line " ∷ outval g.fline true ∷ [])) g in
    if g.symbolic || (chkbounds && g.chkbounds)
    then run (stgwrite "\tbreak\t; " ∷ outval g.code_idx true ∷ count (opcodes 1) ∷ []) commented
    else commented

unfoldable pub setlabel : ℕ → Gen → Gen
unfolding run
setlabel number g =
    run
      (stgwrite "l."
        ∷ put (itoh number)
        ∷ when (not g.staging) (run (stgwrite "\t\t; " ∷ outval g.code_idx false ∷ []))
        ∷ stgwrite "\n"
        ∷ [])
      g

-- `optmark`, with the name and the offset that sLDECL takes.
pub data Mark : Type 0 where
  expr parm : Mark
  ldecl : List ℕ → ℕ → Mark

unfoldable pub markexpr : Mark → Gen → Gen
unfolding run
markexpr expr g = stgwrite "\t;$exp\n" g
markexpr parm g = stgwrite "\t;$par\n" g
markexpr (ldecl name offset) g =
    run (stgwrite "\t;$lcl " ∷ put name ∷ stgwrite " " ∷ outval offset true ∷ []) g

-- `startfunc`, with what `funcdisplayname` makes of the name.
unfoldable pub startfunc : List ℕ → Bool → Gen → Gen
unfolding run
startfunc symname generateproc g =
    run
      (when generateproc (run (stgwrite "\tproc" ∷ count (opcodes 1) ∷ []))
        ∷ when g.asmfile (run (stgwrite "\t; " ∷ put symname ∷ []))
        ∷ stgwrite "\n"
        ∷ [])
      g

abbrev pub endfunc : Gen → Gen
endfunc g = stgwrite "\n" g
