-- ===== src/Codegen/Emits/Called.antt =====
-- What `ffcall` (sc4.c) sends, for native and other functions. The names are without a newline.
use pawn_x.Prelude.{
  ℕ, ◌+◌, ◌*◌, refl, Bool, true, false, ◌&&◌, not, List, [], ◌∷◌, Option, none, some, inl, inr,
  Bool-cases,
}
use pawn_x.Prelude.Chars.{codes, itoh}
use pawn_x.Cell.{is_neg}
use pawn_x.Codegen.{Symbol, Gen, run, put, when, stgwrite, count, outval}
use pawn_x.Codegen.Control.{ffcall, call_function, native_call}
use pawn_x.Codegen.Lines.{one_line}
use pawn_x.Codegen.Sends.{Sends, Sends-trans}
use pawn_x.Codegen.Line.{Sends-named, itoh-one_line}
use pawn_x.Codegen.Name.{Name, name, name-Names, name-is_clean, Sends-name}
use pawn_x.Codegen.Emits.{Emits, EmitsIf}
use pawn_x.Codegen.Emits.Named.{Single}

pub Sends-sysreq :
    (b : Bool) (addr : ℕ) (symname : List ℕ) (g : Gen)
    → Single symname
    → Sends g.sent
        ((run
          (stgwrite "\tsysreq.c "
            ∷ outval addr false
            ∷ when b (run (stgwrite "\t; " ∷ put symname ∷ []))
            ∷ stgwrite "\n"
            ∷ [])
          g).sent)
        8
unfolding run one_line
Sends-sysreq true addr symname g e =
    Sends-named g.sent (symname ∷ codes "\t; " ∷ itoh addr ∷ []) (name Name.sysreq_c) 8
      (name-Names Name.sysreq_c) (name-is_clean Name.sysreq_c) (e, (refl, (itoh-one_line addr, tt)))
Sends-sysreq false addr symname g e = Sends-name Name.sysreq_c addr g.sent

pub native-Emits :
    (b : Bool) (sym : Symbol) (addr numargs : ℕ) (g : Gen)
    → Single sym.symname
    → Emits g (
        run
          (stgwrite "\tsysreq.c "
            ∷ outval addr false
            ∷ when b (run (stgwrite "\t; " ∷ put sym.symname ∷ []))
            ∷ stgwrite "\n"
            ∷ stgwrite "\tstack "
            ∷ outval ((numargs + 1) * 4) true
            ∷ count 16
            ∷ [])
          g)
unfolding Emits run
native-Emits true sym addr numargs g e = (
  16,
  (
    Sends-trans g.sent _ _ 8 8 (Sends-sysreq true addr sym.symname g e)
        (Sends-name Name.stack ((numargs + 1) * 4) _),
    refl,
  ),
)
native-Emits false sym addr numargs g e = (
  16,
  (
    Sends-trans g.sent _ _ 8 8 (Sends-sysreq false addr sym.symname g e)
        (Sends-name Name.stack ((numargs + 1) * 4) _),
    refl,
  ),
)

-- The line of a call, with the texts of its target.
pub call-Emits :
    (b : Bool) (mark target symname : List ℕ) (g : Gen)
    → Single mark
    → Single target
    → Single symname
    → Emits g (
        run
          (stgwrite "\tcall "
            ∷ run (put mark ∷ put target ∷ [])
            ∷ when b (run (stgwrite "\t; " ∷ put symname ∷ []))
            ∷ stgwrite "\n"
            ∷ count 8
            ∷ [])
          g)
unfolding Emits run one_line
call-Emits true mark target symname g m e f = (
  8,
  (
    Sends-named g.sent (symname ∷ codes "\t; " ∷ target ∷ mark ∷ []) (name Name.call) 8
        (name-Names Name.call) (name-is_clean Name.call) (f, (refl, (e, (m, tt)))),
    refl,
  ),
)
call-Emits false mark target symname g m e f = (
  8,
  (
    Sends-named g.sent (target ∷ mark ∷ []) (name Name.call) 8 (name-Names Name.call)
        (name-is_clean Name.call) (e, (m, tt)),
    refl,
  ),
)

abbrev pub label_name : Option (List ℕ) → List ℕ
label_name none = []
label_name (some label) = label

abbrev pub call_state : Option (Gen × ℕ) → Option Gen
call_state none = none
call_state (some (g, addr)) = some g

pub function-Emits :
    (sym : Symbol) (label : Option (List ℕ)) (g : Gen)
    → Single sym.name
    → Single sym.symname
    → Single (label_name label)
    → Emits g (call_function sym label g)
unfolding run one_line
function-Emits sym none g n s l = call-Emits _ (codes ".") sym.name sym.symname g refl n s
function-Emits sym (some label) g n s l = call-Emits _ (codes "l.") label sym.symname g refl l s

pub native_call-Emits :
    (sym : Symbol) (numargs : ℕ) (g : Gen)
    → Single sym.symname
    → Emits g (native_call sym numargs g).0
unfolding Emits run
native_call-Emits sym numargs g s =
    let b = g.writing && (not sym.read && not (is_neg sym.addr)) in
    elim (Bool-cases b) [
      | inl y ↦
          let g' = record g { ntv_funcid = g.ntv_funcid + 1 } in
          rw y (native-Emits g.asmfile sym g.ntv_funcid numargs g' s)
      | inr f ↦ rw f (native-Emits g.asmfile sym sym.addr numargs g s)
    ]

pub EmitsIf-ffcall :
    (sym : Symbol) (label : Option (List ℕ)) (numargs : ℕ) (g : Gen)
    → Single sym.name
    → Single sym.symname
    → Single (label_name label)
    → EmitsIf g (call_state (ffcall sym label numargs g))
unfolding ffcall EmitsIf
EmitsIf-ffcall sym none numargs g n s l = elim (Bool-cases (sym.native)) [
  | inl y ↦ rw y (native_call-Emits sym numargs g s)
  | inr f ↦ rw f (function-Emits sym none g n s l)
]
EmitsIf-ffcall sym (some label) numargs g n s l = elim (Bool-cases (sym.native)) [
  | inl y ↦ rw y tt
  | inr f ↦ rw f (function-Emits sym (some label) g n s l)
]
