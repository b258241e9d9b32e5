-- ===== src/Codegen/Emits/Stored.antt =====
-- What `store` to `fillarray` (sc4.c) send.
use pawn_x.Prelude.{
  ℕ, ◌+◌, ◌≡◌, refl, Bool, true, false, ◌&&◌, not, ◌==◌, if◌then◌else◌, List, [], ◌∷◌, Option, none,
  some, arith,
}
use pawn_x.Cell.{slt}
use pawn_x.Codegen.{
  Ident, variable, reference, array, refarray, arraycell, arraychar, Symbol, written, Gen, run,
  error, when, markusage, stgwrite, outval,
}
use pawn_x.Codegen.Access.{Reg, pri, alt, is_local, is_refarray, lifted_local, lifted_slotaddr_pri}
use pawn_x.Codegen.Store.{store, loadreg, storereg, memcopy, ldconst, copyarray, fillarray}
use pawn_x.Codegen.Plain.{Plain}
use pawn_x.Codegen.Name.{Name}
use pawn_x.Codegen.Emits.{
  Item, plain, number, either, items_sent, items_size, Emits, Emits-trans, Emits-items, Emits-if,
  Emits-error, Emits-markusage, EmitsIf, EmitsIf-if,
}
use pawn_x.Codegen.Emits.Read.{slotaddr, checked, Emits-check}

direct-Emits :
    (sym : Symbol) (g : Gen) → EmitsIf g (store (record { ident = variable; sym = some sym }) g)
unfolding store EmitsIf lifted_slotaddr_pri run items_sent items_size
direct-Emits sym g =
    let b = g.inline_const && sym.captured in
    let x = markusage sym written (when b (error 22) g) in
    let first =
      Emits-trans g (when b (error 22) g) x (Emits-error b 22 g)
        (Emits-markusage sym written (when b (error 22) g)) in
    EmitsIf-if (lifted_local sym) g _ _
      (Emits-trans g x _ first (
        Emits-items
          (plain Plain.push_alt
            ∷ plain Plain.push_pri
            ∷ slotaddr sym x (
                plain Plain.move_alt
                ∷ plain Plain.pop_pri
                ∷ plain Plain.stor_i
                ∷ plain Plain.pop_alt
                ∷ []))
          x _ refl (omega arith)))
      (Emits-trans g x _ first (
        Emits-items (either (is_local sym.vclass) Name.stor_s_pri Name.stor_pri (sym.addr) ∷ []) x _
          refl (omega arith)))

reference-Emits :
    (sym : Symbol) (g : Gen) → EmitsIf g (store (record { ident = reference; sym = some sym }) g)
unfolding store EmitsIf lifted_slotaddr_pri run items_sent items_size
reference-Emits sym g =
    let x = checked (sym.captured) sym g in
    let first = Emits-check (sym.captured) sym g in
    EmitsIf-if (sym.lifted) g _ _
      (Emits-trans g x _ first (
        Emits-items
          (plain Plain.push_alt
            ∷ plain Plain.push_pri
            ∷ slotaddr sym x (
                plain Plain.load_i
                ∷ plain Plain.move_alt
                ∷ plain Plain.pop_pri
                ∷ plain Plain.stor_i
                ∷ plain Plain.pop_alt
                ∷ []))
          x _ refl (omega arith)))
      (Emits-trans g x _ first (
        Emits-items (either (is_local sym.vclass) Name.sref_s_pri Name.sref_pri (sym.addr) ∷ []) x _
          refl (omega arith)))

pub EmitsIf-store :
    (ident : Ident) (sym : Option Symbol) (g : Gen)
    → EmitsIf g (store (record { ident = ident; sym = sym }) g)
unfolding store EmitsIf run items_sent items_size
EmitsIf-store arraycell sym g = Emits-items (plain Plain.stor_i ∷ []) g _ refl (omega arith)
EmitsIf-store arraychar sym g = Emits-items (number Name.strb_i 1 ∷ []) g _ refl (omega arith)
EmitsIf-store reference none g = tt
EmitsIf-store reference (some sym) g = reference-Emits sym g
EmitsIf-store variable none g = tt
EmitsIf-store variable (some sym) g = direct-Emits sym g
EmitsIf-store array none g = tt
EmitsIf-store array (some sym) g = direct-Emits sym g
EmitsIf-store refarray none g = tt
EmitsIf-store refarray (some sym) g = direct-Emits sym g

pub Emits-loadreg : (address : ℕ) (reg : Reg) (g : Gen) → Emits g (loadreg address reg g)
unfolding loadreg run items_sent items_size
Emits-loadreg address pri g = Emits-items (number Name.load_pri address ∷ []) g _ refl (omega arith)
Emits-loadreg address alt g = Emits-items (number Name.load_alt address ∷ []) g _ refl (omega arith)

pub Emits-storereg : (address : ℕ) (reg : Reg) (g : Gen) → Emits g (storereg address reg g)
unfolding storereg run items_sent items_size
Emits-storereg address pri g =
    Emits-items (number Name.stor_pri address ∷ []) g _ refl (omega arith)
Emits-storereg address alt g =
    Emits-items (number Name.stor_alt address ∷ []) g _ refl (omega arith)

pub Emits-memcopy : (size : ℕ) (g : Gen) → Emits g (memcopy size g)
unfolding memcopy run items_sent items_size
Emits-memcopy size g = Emits-items (number Name.movs size ∷ []) g _ refl (omega arith)

pub Emits-ldconst : (val : ℕ) (reg : Reg) (g : Gen) → Emits g (ldconst val reg g)
unfolding ldconst run items_sent items_size
Emits-ldconst val pri g =
    Emits-if (val == 0) g _ _ (Emits-items (plain Plain.zero_pri ∷ []) g _ refl (omega arith))
      (Emits-items (number Name.const_pri val ∷ []) g _ refl (omega arith))
Emits-ldconst val alt g =
    Emits-if (val == 0) g _ _ (Emits-items (plain Plain.zero_alt ∷ []) g _ refl (omega arith))
      (Emits-items (number Name.const_alt val ∷ []) g _ refl (omega arith))

-- The address of a lifted array, with an instruction behind it.
abbrev lifted_items : Symbol → Gen → Item → List Item
lifted_items sym g last =
    plain Plain.push_pri ∷ slotaddr sym g (plain Plain.move_alt ∷ plain Plain.pop_pri ∷ last ∷ [])

Emits-target :
    (b c : Bool) (i : Name) (sym : Symbol) (size : ℕ) (g g' : Gen)
    → g'.sent
      ≡ items_sent (number i size ∷ []) (
          (run
            (stgwrite (if b then "\tload.s.alt " else if c then "\taddr.alt " else "\tconst.alt ")
              ∷ outval (sym.addr) true
              ∷ [])
            g).sent)
    → g'.code_idx ≡ g.code_idx + 16
    → Emits g g'
unfolding run items_sent items_size
Emits-target true c i sym size g g' e f =
    Emits-items (number Name.load_s_alt (sym.addr) ∷ number i size ∷ []) g g' e f
Emits-target false c i sym size g g' e f =
    Emits-items (either c Name.addr_alt Name.const_alt (sym.addr) ∷ number i size ∷ []) g g' e f

pub EmitsIf-copyarray : (sym : Symbol) (size : ℕ) (g : Gen) → EmitsIf g (copyarray sym size g)
unfolding copyarray EmitsIf lifted_slotaddr_pri run items_sent items_size memcopy
EmitsIf-copyarray sym size g =
    EmitsIf-if (lifted_local sym) g _ _
      (Emits-items (lifted_items sym g (number Name.movs size)) g _ refl (omega arith))
      (EmitsIf-if (is_refarray sym.ident && not (is_local sym.vclass)) g _ _ tt (
        Emits-target (is_refarray sym.ident) (is_local sym.vclass) Name.movs sym size g _ refl
          (omega arith)))

pub EmitsIf-fillarray :
    (sym : Symbol) (size value : ℕ) (g : Gen) → EmitsIf g (fillarray sym size value g)
unfolding fillarray EmitsIf lifted_slotaddr_pri run items_sent items_size
EmitsIf-fillarray sym size value g =
    let x = ldconst value pri g in
    let first = Emits-ldconst value pri g in
    EmitsIf-if (not (slt 0 size)) g _ _ tt (
      EmitsIf-if (lifted_local sym) g _ _
        (Emits-trans g x _ first
          (Emits-items (lifted_items sym x (number Name.fill size)) x _ refl (omega arith)))
        (EmitsIf-if (is_refarray sym.ident && not (is_local sym.vclass)) g _ _ tt (
          Emits-trans g x _ first (
            Emits-target (is_refarray sym.ident) (is_local sym.vclass) Name.fill sym size x _ refl
              (omega arith)))))
