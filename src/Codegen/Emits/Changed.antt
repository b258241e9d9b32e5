-- ===== src/Codegen/Emits/Changed.antt =====
-- What `inc` and `dec` (sc4.c) send.
use pawn_x.Prelude.{◌+◌, ◌≡◌, refl, ◌&&◌, List, [], ◌∷◌, Option, none, some, arith}
use pawn_x.Codegen.{
  Ident, variable, reference, array, refarray, arraycell, arraychar, Symbol, written, Gen, run,
  error, when, markusage,
}
use pawn_x.Codegen.Access.{is_local, lifted_local, lifted_slotaddr_pri}
use pawn_x.Codegen.Change.{begin_change, inc, dec}
use pawn_x.Codegen.Plain.{Plain}
use pawn_x.Codegen.Name.{Name}
use pawn_x.Codegen.Emits.{
  Item, plain, number, either, items_sent, items_size, Emits, Emits-none, Emits-trans, Emits-items,
  Emits-error, Emits-markusage, EmitsIf, EmitsIf-if,
}
use pawn_x.Codegen.Emits.Read.{slotaddr}

Emits-begin_change : (sym : Option Symbol) (g : Gen) → Emits g (begin_change sym g)
Emits-begin_change none g = Emits-none g
Emits-begin_change (some sym) g =
    let x = when (g.inline_const && sym.captured) (error 22) g in
    Emits-trans g x (markusage sym written x) (Emits-error (g.inline_const && sym.captured) 22 g)
      (Emits-markusage sym written x)

Emits-changed :
    (sym : Option Symbol) (is : List Item) (g g' : Gen)
    → g'.sent ≡ items_sent is ((begin_change sym g).sent)
    → g'.code_idx ≡ (begin_change sym g).code_idx + items_size is
    → Emits g g'
Emits-changed sym is g g' e f =
    let x = begin_change sym g in
    Emits-trans g x g' (Emits-begin_change sym g) (Emits-items is x g' e f)

-- The instructions around the one that counts.
abbrev char_items : Plain → List Item
char_items i =
    plain Plain.push_pri
    ∷ plain Plain.push_alt
    ∷ plain Plain.move_alt
    ∷ number Name.lodb_i 1
    ∷ plain i
    ∷ number Name.strb_i 1
    ∷ plain Plain.pop_alt
    ∷ plain Plain.pop_pri
    ∷ []

abbrev reference_items : Plain → Symbol → List Item
reference_items i sym =
    plain Plain.push_pri
    ∷ either (is_local sym.vclass) Name.lref_s_pri Name.lref_pri (sym.addr)
    ∷ plain i
    ∷ either (is_local sym.vclass) Name.sref_s_pri Name.sref_pri (sym.addr)
    ∷ plain Plain.pop_pri
    ∷ []

abbrev pub lifted_items : Plain → Symbol → Gen → List Item
lifted_items i sym g =
    plain Plain.push_pri
    ∷ plain Plain.push_alt
    ∷ slotaddr sym g (
        plain Plain.move_alt
        ∷ plain Plain.load_i
        ∷ plain i
        ∷ plain Plain.stor_i
        ∷ plain Plain.pop_alt
        ∷ plain Plain.pop_pri
        ∷ [])

inc-direct :
    (sym : Symbol) (g : Gen) → EmitsIf g (inc (record { ident = variable; sym = some sym }) g)
unfolding inc EmitsIf lifted_slotaddr_pri run items_sent items_size
inc-direct sym g =
    EmitsIf-if (lifted_local sym) g _ _
      (Emits-changed (some sym) (lifted_items Plain.inc_pri sym (begin_change (some sym) g)) g _
        refl (omega arith))
      (Emits-changed (some sym) (either (is_local sym.vclass) Name.inc_s Name.inc (sym.addr) ∷ []) g
        _ refl (omega arith))

pub EmitsIf-inc :
    (ident : Ident) (sym : Option Symbol) (g : Gen)
    → EmitsIf g (inc (record { ident = ident; sym = sym }) g)
unfolding inc EmitsIf run items_sent items_size
EmitsIf-inc arraycell sym g = Emits-changed sym (plain Plain.inc_i ∷ []) g _ refl (omega arith)
EmitsIf-inc arraychar sym g = Emits-changed sym (char_items Plain.inc_pri) g _ refl (omega arith)
EmitsIf-inc reference none g = tt
EmitsIf-inc reference (some sym) g =
    EmitsIf-if (is_local sym.vclass) g _ _
      (Emits-changed (some sym) (reference_items Plain.inc_pri sym) g _ refl (omega arith)) tt
EmitsIf-inc variable none g = tt
EmitsIf-inc variable (some sym) g = inc-direct sym g
EmitsIf-inc array none g = tt
EmitsIf-inc array (some sym) g = inc-direct sym g
EmitsIf-inc refarray none g = tt
EmitsIf-inc refarray (some sym) g = inc-direct sym g

dec-direct :
    (sym : Symbol) (g : Gen) → EmitsIf g (dec (record { ident = variable; sym = some sym }) g)
unfolding dec EmitsIf lifted_slotaddr_pri run items_sent items_size
dec-direct sym g =
    EmitsIf-if (lifted_local sym) g _ _
      (Emits-changed (some sym) (lifted_items Plain.dec_pri sym (begin_change (some sym) g)) g _
        refl (omega arith))
      (Emits-changed (some sym) (either (is_local sym.vclass) Name.dec_s Name.dec (sym.addr) ∷ []) g
        _ refl (omega arith))

pub EmitsIf-dec :
    (ident : Ident) (sym : Option Symbol) (g : Gen)
    → EmitsIf g (dec (record { ident = ident; sym = sym }) g)
unfolding dec EmitsIf run items_sent items_size
EmitsIf-dec arraycell sym g = Emits-changed sym (plain Plain.dec_i ∷ []) g _ refl (omega arith)
EmitsIf-dec arraychar sym g = Emits-changed sym (char_items Plain.dec_pri) g _ refl (omega arith)
EmitsIf-dec reference none g = tt
EmitsIf-dec reference (some sym) g =
    EmitsIf-if (is_local sym.vclass) g _ _
      (Emits-changed (some sym) (reference_items Plain.dec_pri sym) g _ refl (omega arith)) tt
EmitsIf-dec variable none g = tt
EmitsIf-dec variable (some sym) g = dec-direct sym g
EmitsIf-dec array none g = tt
EmitsIf-dec array (some sym) g = dec-direct sym g
EmitsIf-dec refarray none g = tt
EmitsIf-dec refarray (some sym) g = dec-direct sym g
