-- ===== src/Codegen/Emits/Flow.antt =====
-- What the functions on jumps, the stack, the heap and addresses (sc4.c) send, and the operators.
use pawn_x.Prelude.{ℕ, refl, Bool, true, false, ◌&&◌, not, ◌==◌, List, [], ◌∷◌, arith}
use pawn_x.Cell.{neg, is_neg}
use pawn_x.Codegen.{Gen, run, when, stgwrite, count}
use pawn_x.Codegen.Control.{
  with_number, bits, alignframe, moveto1, pushval, swap1, ffswitch, ffret, ffabort, ffbounds,
  jumplabel, jmp_ne0, jmp_eq0,
}
use pawn_x.Codegen.Frame.{
  getfrm, modstk, setstk, modheap, setheap_pri, setheap, cell2addr, cell2addr_alt, addr2cell,
  charalign, addconst,
}
use pawn_x.Codegen.Operator.{Operator, operator}
use pawn_x.Codegen.Plain.{Plain, Constant}
use pawn_x.Codegen.Name.{Name}
use pawn_x.Codegen.Emits.{
  Item, plain, constant, number, items_sent, items_size, Emits, Emits-none, Emits-items, Emits-if,
  EmitsIf, EmitsIf-if,
}

pub Emits-moveto1 : (g : Gen) → Emits g (moveto1 g)
unfolding moveto1 run items_sent items_size
Emits-moveto1 g = Emits-items (plain Plain.move_pri ∷ []) g _ refl (omega arith)

pub Emits-pushval : (val : ℕ) (g : Gen) → Emits g (pushval val g)
unfolding pushval run items_sent items_size
Emits-pushval val g = Emits-items (number Name.push_c val ∷ []) g _ refl (omega arith)

pub Emits-swap1 : (g : Gen) → Emits g (swap1 g)
unfolding swap1 run items_sent items_size
Emits-swap1 g = Emits-items (plain Plain.swap_pri ∷ []) g _ refl (omega arith)

pub Emits-ffswitch : (label : ℕ) (g : Gen) → Emits g (ffswitch label g)
unfolding ffswitch run items_sent items_size
Emits-ffswitch label g = Emits-items (number Name.switch label ∷ []) g _ refl (omega arith)

pub Emits-ffabort : (reason : ℕ) (g : Gen) → Emits g (ffabort reason g)
unfolding ffabort run items_sent items_size
Emits-ffabort reason g = Emits-items (number Name.halt reason ∷ []) g _ refl (omega arith)

pub Emits-jumplabel : (number' : ℕ) (g : Gen) → Emits g (jumplabel number' g)
unfolding jumplabel run items_sent items_size
Emits-jumplabel number' g = Emits-items (number Name.jump number' ∷ []) g _ refl (omega arith)

pub Emits-jmp_ne0 : (number' : ℕ) (g : Gen) → Emits g (jmp_ne0 number' g)
unfolding jmp_ne0 run items_sent items_size
Emits-jmp_ne0 number' g = Emits-items (number Name.jnz number' ∷ []) g _ refl (omega arith)

pub Emits-jmp_eq0 : (number' : ℕ) (g : Gen) → Emits g (jmp_eq0 number' g)
unfolding jmp_eq0 run items_sent items_size
Emits-jmp_eq0 number' g = Emits-items (number Name.jzer number' ∷ []) g _ refl (omega arith)

pub Emits-getfrm : (g : Gen) → Emits g (getfrm g)
unfolding getfrm run items_sent items_size
Emits-getfrm g = Emits-items (constant Constant.lctrl_frm ∷ []) g _ refl (omega arith)

pub Emits-setheap_pri : (g : Gen) → Emits g (setheap_pri g)
unfolding setheap_pri run items_sent items_size
Emits-setheap_pri g =
    Emits-items (number Name.heap 4 ∷ plain Plain.stor_i ∷ plain Plain.move_pri ∷ []) g _ refl
      (omega arith)

pub Emits-setheap : (value : ℕ) (g : Gen) → Emits g (setheap value g)
unfolding setheap setheap_pri run items_sent items_size
Emits-setheap value g =
    Emits-items
      (number Name.const_pri value
        ∷ number Name.heap 4
        ∷ plain Plain.stor_i
        ∷ plain Plain.move_pri
        ∷ [])
      g _ refl (omega arith)

pub Emits-cell2addr : (g : Gen) → Emits g (cell2addr g)
unfolding cell2addr run items_sent items_size
Emits-cell2addr g = Emits-items (constant Constant.shl_c_pri ∷ []) g _ refl (omega arith)

pub Emits-cell2addr_alt : (g : Gen) → Emits g (cell2addr_alt g)
unfolding cell2addr_alt run items_sent items_size
Emits-cell2addr_alt g = Emits-items (constant Constant.shl_c_alt ∷ []) g _ refl (omega arith)

pub Emits-addr2cell : (g : Gen) → Emits g (addr2cell g)
unfolding addr2cell run items_sent items_size
Emits-addr2cell g = Emits-items (constant Constant.shr_c_pri ∷ []) g _ refl (omega arith)

pub Emits-charalign : (g : Gen) → Emits g (charalign g)
unfolding charalign run items_sent items_size
Emits-charalign g = Emits-items (number Name.align_pri 1 ∷ []) g _ refl (omega arith)

pub Emits-ffret : (remparams : Bool) (g : Gen) → Emits g (ffret remparams g)
unfolding ffret run items_sent items_size
Emits-ffret true g = Emits-items (plain Plain.retn ∷ []) g _ refl (omega arith)
Emits-ffret false g = Emits-items (plain Plain.ret ∷ []) g _ refl (omega arith)

pub Emits-ffbounds : (size : ℕ) (g : Gen) → Emits g (ffbounds size g)
unfolding ffbounds run items_sent items_size
Emits-ffbounds size g =
    Emits-if (g.chkbounds) g _ g (Emits-items (number Name.bounds size ∷ []) g _ refl (omega arith))
      (Emits-none g)

pub Emits-modstk : (delta : ℕ) (g : Gen) → Emits g (modstk delta g)
unfolding modstk run items_sent items_size
Emits-modstk delta g =
    Emits-if (not (delta == 0)) g _ g
      (Emits-items (number Name.stack delta ∷ []) g _ refl (omega arith)) (Emits-none g)

pub Emits-modheap : (delta : ℕ) (g : Gen) → Emits g (modheap delta g)
unfolding modheap run items_sent items_size
Emits-modheap delta g =
    Emits-if (not (delta == 0)) g _ g
      (Emits-items (number Name.heap delta ∷ []) g _ refl (omega arith)) (Emits-none g)

pub Emits-addconst : (value : ℕ) (g : Gen) → Emits g (addconst value g)
unfolding addconst run items_sent items_size
Emits-addconst value g =
    Emits-if (not (value == 0)) g _ g
      (Emits-items (number Name.add_c value ∷ []) g _ refl (omega arith)) (Emits-none g)

setstk-Emits :
    (b : Bool) (value : ℕ) (g : Gen)
    → Emits g (
        run
          (stgwrite "\tlctrl 5\n"
            ∷ when b (with_number "\tadd.c " value)
            ∷ stgwrite "\tsctrl 4\n"
            ∷ count 16
            ∷ [])
          g)
unfolding run items_sent items_size
setstk-Emits true value g =
    Emits-items
      (constant Constant.lctrl_frm ∷ number Name.add_c value ∷ constant Constant.sctrl_stk ∷ []) g _
      refl (omega arith)
setstk-Emits false value g =
    Emits-items (constant Constant.lctrl_frm ∷ constant Constant.sctrl_stk ∷ []) g _ refl
      (omega arith)

pub EmitsIf-setstk : (value : ℕ) (g : Gen) → EmitsIf g (setstk value g)
unfolding setstk EmitsIf
EmitsIf-setstk value g =
    EmitsIf-if (not (is_neg value) && not (value == 0)) g _ _ tt
      (setstk-Emits (is_neg value) value g)

pub EmitsIf-alignframe : (numbytes : ℕ) (g : Gen) → EmitsIf g (alignframe numbytes g)
unfolding alignframe EmitsIf run items_sent items_size
EmitsIf-alignframe numbytes g = EmitsIf-if (not (bits 32 numbytes == 1)) g _ _ tt (
    Emits-items
      (constant Constant.lctrl_stk
        ∷ number Name.const_alt (neg numbytes)
        ∷ plain Plain.and
        ∷ constant Constant.sctrl_stk
        ∷ constant Constant.sctrl_frm
        ∷ [])
      g _ refl (omega arith))

-- The instructions of an operator.
abbrev pub operator_items : Operator → List Item
operator_items Operator.os_mult = plain Plain.smul ∷ []
operator_items Operator.os_div = plain Plain.sdiv_alt ∷ []
operator_items Operator.os_mod = plain Plain.sdiv_alt ∷ plain Plain.move_pri ∷ []
operator_items Operator.ob_add = plain Plain.add ∷ []
operator_items Operator.ob_sub = plain Plain.sub_alt ∷ []
operator_items Operator.ob_sal = plain Plain.xchg ∷ plain Plain.shl ∷ []
operator_items Operator.os_sar = plain Plain.xchg ∷ plain Plain.sshr ∷ []
operator_items Operator.ou_sar = plain Plain.xchg ∷ plain Plain.shr ∷ []
operator_items Operator.ob_or = plain Plain.or ∷ []
operator_items Operator.ob_xor = plain Plain.xor ∷ []
operator_items Operator.ob_and = plain Plain.and ∷ []
operator_items Operator.ob_eq = plain Plain.eq ∷ []
operator_items Operator.ob_ne = plain Plain.neq ∷ []
operator_items Operator.relop_prefix = plain Plain.push_pri ∷ plain Plain.move_pri ∷ []
operator_items Operator.relop_suffix =
    plain Plain.swap_alt ∷ plain Plain.and ∷ plain Plain.pop_alt ∷ []
operator_items Operator.os_lt = plain Plain.xchg ∷ plain Plain.sless ∷ []
operator_items Operator.os_le = plain Plain.xchg ∷ plain Plain.sleq ∷ []
operator_items Operator.os_gt = plain Plain.xchg ∷ plain Plain.sgrtr ∷ []
operator_items Operator.os_ge = plain Plain.xchg ∷ plain Plain.sgeq ∷ []
operator_items Operator.lneg = plain Plain.not ∷ []
operator_items Operator.neg = plain Plain.neg ∷ []
operator_items Operator.invert = plain Plain.invert ∷ []
operator_items Operator.nooperation = plain Plain.nop ∷ []

pub Emits-operator : (o : Operator) (g : Gen) → Emits g (operator o g)
unfolding operator run items_sent items_size
Emits-operator Operator.os_mult g =
    Emits-items (operator_items Operator.os_mult) g _ refl (omega arith)
Emits-operator Operator.os_div g =
    Emits-items (operator_items Operator.os_div) g _ refl (omega arith)
Emits-operator Operator.os_mod g =
    Emits-items (operator_items Operator.os_mod) g _ refl (omega arith)
Emits-operator Operator.ob_add g =
    Emits-items (operator_items Operator.ob_add) g _ refl (omega arith)
Emits-operator Operator.ob_sub g =
    Emits-items (operator_items Operator.ob_sub) g _ refl (omega arith)
Emits-operator Operator.ob_sal g =
    Emits-items (operator_items Operator.ob_sal) g _ refl (omega arith)
Emits-operator Operator.os_sar g =
    Emits-items (operator_items Operator.os_sar) g _ refl (omega arith)
Emits-operator Operator.ou_sar g =
    Emits-items (operator_items Operator.ou_sar) g _ refl (omega arith)
Emits-operator Operator.ob_or g = Emits-items (operator_items Operator.ob_or) g _ refl (omega arith)
Emits-operator Operator.ob_xor g =
    Emits-items (operator_items Operator.ob_xor) g _ refl (omega arith)
Emits-operator Operator.ob_and g =
    Emits-items (operator_items Operator.ob_and) g _ refl (omega arith)
Emits-operator Operator.ob_eq g = Emits-items (operator_items Operator.ob_eq) g _ refl (omega arith)
Emits-operator Operator.ob_ne g = Emits-items (operator_items Operator.ob_ne) g _ refl (omega arith)
Emits-operator Operator.relop_prefix g =
    Emits-items (operator_items Operator.relop_prefix) g _ refl (omega arith)
Emits-operator Operator.relop_suffix g =
    Emits-items (operator_items Operator.relop_suffix) g _ refl (omega arith)
Emits-operator Operator.os_lt g = Emits-items (operator_items Operator.os_lt) g _ refl (omega arith)
Emits-operator Operator.os_le g = Emits-items (operator_items Operator.os_le) g _ refl (omega arith)
Emits-operator Operator.os_gt g = Emits-items (operator_items Operator.os_gt) g _ refl (omega arith)
Emits-operator Operator.os_ge g = Emits-items (operator_items Operator.os_ge) g _ refl (omega arith)
Emits-operator Operator.lneg g = Emits-items (operator_items Operator.lneg) g _ refl (omega arith)
Emits-operator Operator.neg g = Emits-items (operator_items Operator.neg) g _ refl (omega arith)
Emits-operator Operator.invert g =
    Emits-items (operator_items Operator.invert) g _ refl (omega arith)
Emits-operator Operator.nooperation g =
    Emits-items (operator_items Operator.nooperation) g _ refl (omega arith)
