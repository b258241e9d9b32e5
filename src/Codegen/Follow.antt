-- ===== src/Codegen/Follow.antt =====
-- One call of the code generator (sc4.c) against the first pass of the assembler (sc6.c).
use mathlib.Core.List.{append_assoc, append-nil}
use pawn_x.Prelude.{
  ℕ, ◌<◌, ◌≡◌, refl, ap, sym, ◌∙◌, Bool, true, false, not, List, [], ◌∷◌, ◌++◌, Option, none, some,
}
use pawn_x.Prelude.Chars.{codes, itoh}
use pawn_x.Cell.{modulus}
use pawn_x.Assembler.Number.{hex2long}
use pawn_x.Assembler.Emit.{skipwhitespace}
use pawn_x.Assembler.Passes.{Line, label_line, first_pass, stripcomment, read_line}
use pawn_x.Assembler.Roundtrip.{ends_digits, hex2long-itoh}
use pawn_x.Codegen.{Gen, run, when, stgwrite, outval, put, setlabel}
use pawn_x.Codegen.Call.{Call}
use pawn_x.Codegen.Perform.{perform, place}
use pawn_x.Codegen.Lines.{text_of, one_line}
use pawn_x.Codegen.Writes.{Writes, Writes-line}
use pawn_x.Codegen.Clean.{stripcomment-append, itoh-is_clean}
use pawn_x.Codegen.Sends.{Sends, Steps}
use pawn_x.Codegen.Line.{one_line-text_of, itoh-one_line, read_line-read_stripped}
use pawn_x.Codegen.Emits.{Emits, Emits-none, EmitsIf}
use pawn_x.Codegen.Emits.Read.{
  EmitsIf-rvalue, Emits-dereference, Emits-address, Emits-pushreg, Emits-popreg,
}
use pawn_x.Codegen.Emits.Stored.{
  EmitsIf-store, Emits-loadreg, Emits-storereg, Emits-memcopy, Emits-ldconst, EmitsIf-copyarray,
  EmitsIf-fillarray,
}
use pawn_x.Codegen.Emits.Changed.{EmitsIf-inc, EmitsIf-dec}
use pawn_x.Codegen.Emits.Flow.{
  Emits-moveto1, Emits-pushval, Emits-swap1, Emits-ffswitch, Emits-ffabort, Emits-jumplabel,
  Emits-jmp_ne0, Emits-jmp_eq0, Emits-getfrm, Emits-setheap_pri, Emits-setheap, Emits-cell2addr,
  Emits-cell2addr_alt, Emits-addr2cell, Emits-charalign, Emits-ffret, Emits-ffbounds, Emits-modstk,
  Emits-modheap, Emits-addconst, EmitsIf-setstk, EmitsIf-alignframe, Emits-operator,
}
use pawn_x.Codegen.Emits.Directive.{Emits-begcseg, Emits-begdseg, Emits-setline}
use pawn_x.Codegen.Emits.Named.{
  Single, mark_name, Emits-markexpr, Emits-startfunc, Emits-endfunc, Emits-ffcase,
  Emits-ffcaserange,
}
use pawn_x.Codegen.Emits.Called.{label_name, EmitsIf-ffcall}

-- Labels are cells, and the names are in one line.
unfoldable pub IsValid : Call → Type 0
IsValid (Call.setlabel n) = n < modulus
IsValid (Call.markexpr mark) = Single (mark_name mark)
IsValid (Call.startfunc symname proc) = Single symname
IsValid (Call.ffcase v label table) = Single label
IsValid (Call.ffcaserange lo hi body skip) = Single body
IsValid (Call.ffcall sym label numargs) =
    Single sym.name × (Single sym.symname × Single (label_name label))
IsValid c = Unit

-- What a call sends is read by the assembler, which counts and labels as the code generator does.
unfoldable pub Follows : Call → Gen → Gen → Type 0
Follows c g g' =
    (ls : List Line) × (Writes g.sent g'.sent ls
      × ((t : List ℕ) → first_pass ls g.code_idx t ≡ (g'.code_idx, place c g t)))

unfoldable pub FollowsIf : Call → Gen → Option Gen → Type 0
FollowsIf c g none = Unit
FollowsIf c g (some g') = Follows c g g'

pub kept_in :
    (c : Call) (g : Gen) (o : Option Gen)
    → ((t : List ℕ) → place c g t ≡ t)
    → EmitsIf g o
    → FollowsIf c g o
unfolding EmitsIf FollowsIf Follows Emits Sends Steps
kept_in c g none e w = tt
kept_in c g (some g') e (n, ((ls, (w, steps)), size)) = (
  ls,
  (
    w,
    λ t. steps g.code_idx t ∙ ap (λ k. (k, t)) (sym size) ∙ ap (λ u. (g'.code_idx, u)) (sym (e t)),
  ),
)

pub kept :
    (c : Call) (g : Gen)
    → ((t : List ℕ) → place c g t ≡ t)
    → EmitsIf g (perform c g)
    → FollowsIf c g (perform c g)
kept c g e w = kept_in c g (perform c g) e w

-- The line of a label, with what follows the number.
pub Writes-label :
    (sent parts : List (List ℕ)) (n : ℕ) (comment : List ℕ)
    → n < modulus
    → text_of parts ≡ codes "l." ++ (itoh n ++ comment)
    → one_line (text_of parts) ≡ true
    → ends_digits (stripcomment (comment ++ 10 ∷ [])) ≡ true
    → Writes sent ((10 ∷ []) ∷ (parts ++ sent)) (label_line n ∷ [])
unfolding skipwhitespace stripcomment
Writes-label sent parts n comment h e o d =
    let behind = comment ++ 10 ∷ [] in
    let whole : text_of parts ++ 10 ∷ [] ≡ codes "l." ++ (itoh n ++ behind) =
      ap (λ t. t ++ 10 ∷ []) e
      ∙ ap (λ t. codes "l." ++ t) (append_assoc (itoh n) comment (10 ∷ [])) in
    let number : stripcomment (itoh n ++ behind) ≡ itoh n ++ stripcomment behind =
      stripcomment-append (itoh n) behind (itoh-is_clean n) in
    let value = hex2long-itoh n (stripcomment behind) h d in
    Writes-line sent parts (label_line n) o (
      ap read_line whole
      ∙ read_line-read_stripped (codes "l." ++ (itoh n ++ behind))
      ∙ ap (λ t. some (label_line (hex2long t).0)) number
      ∙ ap (λ (r : ℕ × List ℕ). some (label_line r.0)) value)

pub setlabel-Follows :
    (b : Bool) (n : ℕ) (g : Gen)
    → n < modulus
    → Follows (Call.setlabel n) g (
        run
          (stgwrite "l."
            ∷ put (itoh n)
            ∷ when b (run (stgwrite "\t\t; " ∷ outval g.code_idx false ∷ []))
            ∷ stgwrite "\n"
            ∷ [])
          g)
unfolding Follows run text_of stripcomment first_pass one_line
setlabel-Follows true n g h =
    let parts = itoh g.code_idx ∷ codes "\t\t; " ∷ itoh n ∷ codes "l." ∷ [] in
    (
      label_line n ∷ [],
      (
        Writes-label g.sent parts n (codes "\t\t; " ++ itoh g.code_idx) h
            (ap (λ t. codes "l." ++ t) (append_assoc (itoh n) (codes "\t\t; ") (itoh g.code_idx)))
            (one_line-text_of parts
              (itoh-one_line g.code_idx, (refl, (itoh-one_line n, (refl, tt)))))
            refl,
        λ t. refl,
      ),
    )
setlabel-Follows false n g h =
    let parts = itoh n ∷ codes "l." ∷ [] in
    (
      label_line n ∷ [],
      (
        Writes-label g.sent parts n [] h (ap (λ t. codes "l." ++ t) (sym (append-nil (itoh n))))
            (one_line-text_of parts (itoh-one_line n, (refl, tt))) refl,
        λ t. refl,
      ),
    )

pub perform-FollowsIf : (c : Call) (g : Gen) → IsValid c → FollowsIf c g (perform c g)
unfolding perform FollowsIf IsValid EmitsIf setlabel
perform-FollowsIf (Call.setlabel n) g valid = setlabel-Follows (not g.staging) n g valid
perform-FollowsIf Call.begcseg g valid = kept Call.begcseg g (λ t. refl) (Emits-begcseg g)
perform-FollowsIf Call.begdseg g valid = kept Call.begdseg g (λ t. refl) (Emits-begdseg g)
perform-FollowsIf (Call.setline chkbounds) g valid =
    kept (Call.setline chkbounds) g (λ t. refl) (Emits-setline chkbounds g)
perform-FollowsIf (Call.markexpr mark) g valid =
    kept (Call.markexpr mark) g (λ t. refl) (Emits-markexpr mark g valid)
perform-FollowsIf (Call.startfunc symname proc) g valid =
    kept (Call.startfunc symname proc) g (λ t. refl) (Emits-startfunc symname proc g valid)
perform-FollowsIf Call.endfunc g valid = kept Call.endfunc g (λ t. refl) (Emits-endfunc g)
perform-FollowsIf (Call.alignframe n) g valid =
    kept (Call.alignframe n) g (λ t. refl) (EmitsIf-alignframe n g)
perform-FollowsIf (Call.rvalue v) g valid =
    kept (Call.rvalue v) g (λ t. refl) (EmitsIf-rvalue v.ident v.sym g)
perform-FollowsIf Call.dereference g valid =
    kept Call.dereference g (λ t. refl) (Emits-dereference g)
perform-FollowsIf (Call.address sym reg) g valid =
    kept (Call.address sym reg) g (λ t. refl) (Emits-address sym reg g)
perform-FollowsIf (Call.store v) g valid =
    kept (Call.store v) g (λ t. refl) (EmitsIf-store v.ident v.sym g)
perform-FollowsIf (Call.loadreg addr reg) g valid =
    kept (Call.loadreg addr reg) g (λ t. refl) (Emits-loadreg addr reg g)
perform-FollowsIf (Call.storereg addr reg) g valid =
    kept (Call.storereg addr reg) g (λ t. refl) (Emits-storereg addr reg g)
perform-FollowsIf (Call.memcopy size) g valid =
    kept (Call.memcopy size) g (λ t. refl) (Emits-memcopy size g)
perform-FollowsIf (Call.copyarray sym size) g valid =
    kept (Call.copyarray sym size) g (λ t. refl) (EmitsIf-copyarray sym size g)
perform-FollowsIf (Call.fillarray sym size v) g valid =
    kept (Call.fillarray sym size v) g (λ t. refl) (EmitsIf-fillarray sym size v g)
perform-FollowsIf (Call.ldconst v reg) g valid =
    kept (Call.ldconst v reg) g (λ t. refl) (Emits-ldconst v reg g)
perform-FollowsIf Call.moveto1 g valid = kept Call.moveto1 g (λ t. refl) (Emits-moveto1 g)
perform-FollowsIf (Call.pushreg reg) g valid =
    kept (Call.pushreg reg) g (λ t. refl) (Emits-pushreg reg g)
perform-FollowsIf (Call.pushval v) g valid = kept (Call.pushval v) g (λ t. refl) (Emits-pushval v g)
perform-FollowsIf (Call.popreg reg) g valid =
    kept (Call.popreg reg) g (λ t. refl) (Emits-popreg reg g)
perform-FollowsIf Call.swap1 g valid = kept Call.swap1 g (λ t. refl) (Emits-swap1 g)
perform-FollowsIf (Call.ffswitch n) g valid =
    kept (Call.ffswitch n) g (λ t. refl) (Emits-ffswitch n g)
perform-FollowsIf (Call.ffcase v label table) g valid =
    kept (Call.ffcase v label table) g (λ t. refl) (Emits-ffcase v label table g valid)
perform-FollowsIf (Call.ffcaserange lo hi body skip) g valid =
    kept (Call.ffcaserange lo hi body skip) g (λ t. refl)
      (Emits-ffcaserange lo hi body skip g valid)
perform-FollowsIf (Call.ffcall sym label numargs) g (n, (s, l)) =
    kept (Call.ffcall sym label numargs) g (λ t. refl) (EmitsIf-ffcall sym label numargs g n s l)
perform-FollowsIf (Call.ffret remparams) g valid =
    kept (Call.ffret remparams) g (λ t. refl) (Emits-ffret remparams g)
perform-FollowsIf (Call.ffabort reason) g valid =
    kept (Call.ffabort reason) g (λ t. refl) (Emits-ffabort reason g)
perform-FollowsIf (Call.ffbounds size) g valid =
    kept (Call.ffbounds size) g (λ t. refl) (Emits-ffbounds size g)
perform-FollowsIf (Call.jumplabel n) g valid =
    kept (Call.jumplabel n) g (λ t. refl) (Emits-jumplabel n g)
perform-FollowsIf Call.getfrm g valid = kept Call.getfrm g (λ t. refl) (Emits-getfrm g)
perform-FollowsIf (Call.modstk delta) g valid =
    kept (Call.modstk delta) g (λ t. refl) (Emits-modstk delta g)
perform-FollowsIf (Call.setstk v) g valid = kept (Call.setstk v) g (λ t. refl) (EmitsIf-setstk v g)
perform-FollowsIf (Call.modheap delta) g valid =
    kept (Call.modheap delta) g (λ t. refl) (Emits-modheap delta g)
perform-FollowsIf Call.setheap_pri g valid =
    kept Call.setheap_pri g (λ t. refl) (Emits-setheap_pri g)
perform-FollowsIf (Call.setheap v) g valid = kept (Call.setheap v) g (λ t. refl) (Emits-setheap v g)
perform-FollowsIf Call.cell2addr g valid = kept Call.cell2addr g (λ t. refl) (Emits-cell2addr g)
perform-FollowsIf Call.cell2addr_alt g valid =
    kept Call.cell2addr_alt g (λ t. refl) (Emits-cell2addr_alt g)
perform-FollowsIf Call.addr2cell g valid = kept Call.addr2cell g (λ t. refl) (Emits-addr2cell g)
perform-FollowsIf Call.char2addr g valid = kept Call.char2addr g (λ t. refl) (Emits-none g)
perform-FollowsIf Call.charalign g valid = kept Call.charalign g (λ t. refl) (Emits-charalign g)
perform-FollowsIf (Call.addconst v) g valid =
    kept (Call.addconst v) g (λ t. refl) (Emits-addconst v g)
perform-FollowsIf (Call.operator o) g valid =
    kept (Call.operator o) g (λ t. refl) (Emits-operator o g)
perform-FollowsIf (Call.inc v) g valid =
    kept (Call.inc v) g (λ t. refl) (EmitsIf-inc v.ident v.sym g)
perform-FollowsIf (Call.dec v) g valid =
    kept (Call.dec v) g (λ t. refl) (EmitsIf-dec v.ident v.sym g)
perform-FollowsIf (Call.jmp_ne0 n) g valid = kept (Call.jmp_ne0 n) g (λ t. refl) (Emits-jmp_ne0 n g)
perform-FollowsIf (Call.jmp_eq0 n) g valid = kept (Call.jmp_eq0 n) g (λ t. refl) (Emits-jmp_eq0 n g)
