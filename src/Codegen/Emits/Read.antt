-- ===== src/Codegen/Emits/Read.antt =====
-- What `rvalue` and `address` (sc4.c) send, with the functions that they use.
use pawn_x.Prelude.{
  ℕ, refl, Bool, true, false, ◌&&◌, ◌||◌, if◌then◌else◌, List, [], ◌∷◌, Option, none, some, arith,
  not,
}
use pawn_x.Codegen.{
  Ident, variable, reference, array, refarray, arraycell, arraychar, Symbol, Gen, run, error, when,
  markusage, stgwrite, count, read, outval,
}
use pawn_x.Codegen.Access.{
  Reg, pri, alt, is_local, is_alt, is_reference, is_refarray, lifted_local, check_suspend,
  lifted_slotaddr_pri, rvalue, dereference, pushreg, popreg, to_reg, address, across_suspend,
}
use pawn_x.Codegen.Plain.{Plain}
use pawn_x.Codegen.Name.{Name}
use pawn_x.Codegen.Emits.{
  Item, plain, number, either, items_sent, items_size, Emits, Emits-trans, Emits-items, Emits-if,
  Emits-error, EmitsIf, EmitsIf-if,
}

-- The base of a lifted or captured symbol.
abbrev pub base : Symbol → Gen → ℕ
base sym g = if sym.captured then g.inlinelink else g.genlocalsbase

-- The instructions of `lifted_slotaddr_pri`.
abbrev pub slotaddr : Symbol → Gen → List Item → List Item
slotaddr sym g rest = number Name.load_s_pri (base sym g) ∷ (number Name.add_c (sym.addr) ∷ rest)

pub Emits-lifted_slotaddr_pri : (sym : Symbol) (g : Gen) → Emits g (lifted_slotaddr_pri sym g)
unfolding lifted_slotaddr_pri run items_sent items_size
Emits-lifted_slotaddr_pri sym g =
    Emits-items (slotaddr sym g []) g (lifted_slotaddr_pri sym g) refl (omega arith)

pub Emits-check :
    (b : Bool) (sym : Symbol) (g : Gen) → Emits g (when b (error 98) (check_suspend sym g))
Emits-check b sym g =
    let checked = check_suspend sym g in
    Emits-trans g checked (when b (error 98) checked) (Emits-error (across_suspend sym g) 268 g)
      (Emits-error b 98 checked)

abbrev pub checked : Bool → Symbol → Gen → Gen
checked b sym g = when b (error 98) (check_suspend sym g)

-- What `rvalue` sends for a symbol whose cell it fetches directly.
direct-Emits :
    (sym : Symbol) (g : Gen) → EmitsIf g (rvalue (record { ident = variable; sym = some sym }) g)
unfolding rvalue EmitsIf lifted_slotaddr_pri run items_sent items_size
direct-Emits sym g =
    EmitsIf-if (lifted_local sym) g _ _
      (Emits-items (slotaddr sym g (plain Plain.load_i ∷ [])) g _ refl (omega arith))
      (Emits-items (either (is_local sym.vclass) Name.load_s_pri Name.load_pri (sym.addr) ∷ []) g _
        refl (omega arith))

reference-Emits :
    (sym : Symbol) (g : Gen) → EmitsIf g (rvalue (record { ident = reference; sym = some sym }) g)
unfolding rvalue EmitsIf lifted_slotaddr_pri run items_sent items_size
reference-Emits sym g =
    let x = checked (sym.captured) sym g in
    let first = Emits-check (sym.captured) sym g in
    EmitsIf-if (not (is_local sym.vclass)) g _ _ tt (
      EmitsIf-if (sym.lifted) g _ _
        (Emits-trans g x _ first (
          Emits-items (slotaddr sym x (plain Plain.load_i ∷ plain Plain.load_i ∷ [])) x _ refl
            (omega arith)))
        (Emits-trans g x _ first (
          Emits-items (either (is_local sym.vclass) Name.lref_s_pri Name.lref_pri (sym.addr) ∷ []) x
            _ refl (omega arith))))

pub EmitsIf-rvalue :
    (ident : Ident) (sym : Option Symbol) (g : Gen)
    → EmitsIf g (rvalue (record { ident = ident; sym = sym }) g)
unfolding rvalue EmitsIf run items_sent items_size
EmitsIf-rvalue arraycell sym g = Emits-items (plain Plain.load_i ∷ []) g _ refl (omega arith)
EmitsIf-rvalue arraychar sym g = Emits-items (number Name.lodb_i 1 ∷ []) g _ refl (omega arith)
EmitsIf-rvalue reference none g = tt
EmitsIf-rvalue reference (some sym) g = reference-Emits sym g
EmitsIf-rvalue variable none g = tt
EmitsIf-rvalue variable (some sym) g = direct-Emits sym g
EmitsIf-rvalue array none g = tt
EmitsIf-rvalue array (some sym) g = direct-Emits sym g
EmitsIf-rvalue refarray none g = tt
EmitsIf-rvalue refarray (some sym) g = direct-Emits sym g

pub Emits-dereference : (g : Gen) → Emits g (dereference g)
unfolding dereference run items_sent items_size
Emits-dereference g = Emits-items (plain Plain.load_i ∷ []) g _ refl (omega arith)

pub Emits-pushreg : (reg : Reg) (g : Gen) → Emits g (pushreg reg g)
unfolding pushreg run items_sent items_size
Emits-pushreg pri g = Emits-items (plain Plain.push_pri ∷ []) g _ refl (omega arith)
Emits-pushreg alt g = Emits-items (plain Plain.push_alt ∷ []) g _ refl (omega arith)

pub Emits-popreg : (reg : Reg) (g : Gen) → Emits g (popreg reg g)
unfolding popreg run items_sent items_size
Emits-popreg pri g = Emits-items (plain Plain.pop_pri ∷ []) g _ refl (omega arith)
Emits-popreg alt g = Emits-items (plain Plain.pop_alt ∷ []) g _ refl (omega arith)

Emits-to_reg :
    (reg : Reg) (compute : Gen → Gen) (g : Gen)
    → ((x : Gen) → Emits x (compute x))
    → Emits g (to_reg reg compute g)
unfolding run items_sent items_size pushreg popreg
Emits-to_reg pri compute g e = e g
Emits-to_reg alt compute g e =
    let pushed = pushreg pri g in
    let computed = compute pushed in
    Emits-trans g computed _ (Emits-trans g pushed computed (Emits-pushreg pri g) (e pushed))
      (Emits-items (plain Plain.move_alt ∷ plain Plain.pop_pri ∷ []) computed _ refl (omega arith))

-- The text and the size of an instruction that one of two strings begins.
Emits-chosen :
    (b c d : Bool) (sym : Symbol) (x : Gen)
    → Emits x (
        run
          ((if b
              then stgwrite (if c then "\tload.s.alt " else "\tload.s.pri ")
              else if c
              then stgwrite (if d then "\taddr.alt " else "\tconst.alt ")
              else stgwrite (if d then "\taddr.pri " else "\tconst.pri "))
            ∷ outval (sym.addr) true
            ∷ markusage sym read
            ∷ count 8
            ∷ [])
          x)
unfolding run items_sent items_size
Emits-chosen true c d sym x =
    Emits-items (either c Name.load_s_alt Name.load_s_pri (sym.addr) ∷ []) x _ refl (omega arith)
Emits-chosen false true d sym x =
    Emits-items (either d Name.addr_alt Name.const_alt (sym.addr) ∷ []) x _ refl (omega arith)
Emits-chosen false false d sym x =
    Emits-items (either d Name.addr_pri Name.const_pri (sym.addr) ∷ []) x _ refl (omega arith)

Emits-pointer : (sym : Symbol) (g : Gen) → Emits g (dereference (lifted_slotaddr_pri sym g))
Emits-pointer sym g =
    let slot = lifted_slotaddr_pri sym g in
    Emits-trans g slot (dereference slot) (Emits-lifted_slotaddr_pri sym g) (Emits-dereference slot)

Emits-marked :
    (a b : Gen) (sym : Symbol) (g : Gen) → Emits g a → Emits a b → Emits g (markusage sym read b)
unfolding Emits
Emits-marked a b sym g e f = Emits-trans g a b e f

pub Emits-address : (sym : Symbol) (reg : Reg) (g : Gen) → Emits g (address sym reg g)
unfolding address run dereference
Emits-address sym reg g =
    let b = sym.captured && is_reference sym.ident in
    let x = checked b sym g in
    let first = Emits-check b sym g in
    Emits-if (is_reference sym.ident && sym.lifted) g _ _
      (Emits-marked x _ sym g first
        (Emits-to_reg reg (λ y. dereference (lifted_slotaddr_pri sym y)) x (Emits-pointer sym)))
      (Emits-if (lifted_local sym) g _ _
        (Emits-marked x _ sym g first
          (Emits-to_reg reg (lifted_slotaddr_pri sym) x (Emits-lifted_slotaddr_pri sym)))
        (Emits-trans g x _ first (
          Emits-chosen (is_refarray sym.ident || is_reference sym.ident) (is_alt reg)
            (is_local sym.vclass) sym x)))
