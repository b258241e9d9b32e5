-- ===== src/Codegen/Cells.antt =====
-- The cells that the assembler (sc6.c) writes for instructions of the code generator (sc4.c).
use pawn_x.Prelude.{ℕ, ◌≡◌, refl, ap, ◌∙◌, List, [], ◌∷◌, ◌++◌}
use pawn_x.Assembler.{stricmp, name_at, search, findopcode}
use pawn_x.Assembler.Table.{cseg, opcodelist, codes_a_to_i, codes_j_to_o, codes_p_to_z}
use pawn_x.Assembler.Number.{Names, take_name}
use pawn_x.Assembler.Emit.{skipwhitespace, written_cells}
use pawn_x.Assembler.Passes.{
  Line, second_pass, stripcomment, read_line, read_lines, read_instruction,
}
use pawn_x.Assembler.Passes.Layout.{names_after, second_pass-append}
use pawn_x.Codegen.Lines.{lines_of, is_whole}
use pawn_x.Codegen.Writes.{Reads, Writes, Writes-none, Writes-trans, Writes-text}
use pawn_x.Codegen.Plain.{Plain, text}

-- Between two times lines were sent that the second pass makes cells of, whatever the labels are.
unfoldable pub Codes : List (List ℕ) → List (List ℕ) → List ℕ → Type 0
Codes sent sent' cells =
    (ls : List Line) × (Writes sent sent' ls
      × ((names : Names) → second_pass cseg names ls ≡ cells))

pub Codes-none : (sent : List (List ℕ)) → Codes sent sent []
unfolding Codes second_pass
Codes-none sent = ([], (Writes-none sent, λ names. refl))

pub Codes-trans :
    (a b c : List (List ℕ)) (xs ys : List ℕ) → Codes a b xs → Codes b c ys → Codes a c (xs ++ ys)
unfolding Codes
Codes-trans a b c xs ys (ls, (w, e)) (ms, (v, f)) = (
  ls ++ ms,
  (
    Writes-trans a b c ls ms w v,
    λ names.
        second_pass-append names ls ms
        ∙ ap (λ cells. cells ++ second_pass cseg (names_after names ls) ms) (e names)
        ∙ ap (λ cells. xs ++ cells) (f (names_after names ls)),
  ),
)

-- The opcode of a line of one word.
abbrev pub plain_code : Plain → ℕ
plain_code Plain.load_i = 9
plain_code Plain.stor_i = 23
plain_code Plain.move_pri = 33
plain_code Plain.move_alt = 34
plain_code Plain.push_pri = 36
plain_code Plain.push_alt = 37
plain_code Plain.pop_pri = 42
plain_code Plain.pop_alt = 43
plain_code Plain.swap_pri = 131
plain_code Plain.swap_alt = 132
plain_code Plain.inc_i = 111
plain_code Plain.dec_i = 116
plain_code Plain.inc_pri = 107
plain_code Plain.dec_pri = 112
plain_code Plain.zero_pri = 89
plain_code Plain.zero_alt = 90
plain_code Plain.ret = 47
plain_code Plain.retn = 48
plain_code Plain.casetbl = 130
plain_code Plain.smul = 72
plain_code Plain.sdiv_alt = 74
plain_code Plain.add = 78
plain_code Plain.sub_alt = 80
plain_code Plain.xchg = 35
plain_code Plain.shl = 65
plain_code Plain.sshr = 67
plain_code Plain.shr = 66
plain_code Plain.or = 82
plain_code Plain.xor = 83
plain_code Plain.and = 81
plain_code Plain.eq = 95
plain_code Plain.neq = 96
plain_code Plain.sless = 101
plain_code Plain.sleq = 102
plain_code Plain.sgrtr = 103
plain_code Plain.sgeq = 104
plain_code Plain.not = 84
plain_code Plain.neg = 85
plain_code Plain.invert = 86
plain_code Plain.nop = 134

pub Codes-plain :
    (i : Plain) (sent : List (List ℕ)) → Codes sent (text i ∷ sent) (plain_code i ∷ [])
unfolding Codes Reads is_whole lines_of read_lines read_line stripcomment skipwhitespace
    read_instruction take_name findopcode search stricmp name_at opcodelist codes_a_to_i
    codes_j_to_o codes_p_to_z second_pass written_cells
Codes-plain Plain.load_i sent =
    (_, (Writes-text sent (text Plain.load_i) _ (refl, refl), λ names. refl))
Codes-plain Plain.stor_i sent =
    (_, (Writes-text sent (text Plain.stor_i) _ (refl, refl), λ names. refl))
Codes-plain Plain.move_pri sent =
    (_, (Writes-text sent (text Plain.move_pri) _ (refl, refl), λ names. refl))
Codes-plain Plain.move_alt sent =
    (_, (Writes-text sent (text Plain.move_alt) _ (refl, refl), λ names. refl))
Codes-plain Plain.push_pri sent =
    (_, (Writes-text sent (text Plain.push_pri) _ (refl, refl), λ names. refl))
Codes-plain Plain.push_alt sent =
    (_, (Writes-text sent (text Plain.push_alt) _ (refl, refl), λ names. refl))
Codes-plain Plain.pop_pri sent =
    (_, (Writes-text sent (text Plain.pop_pri) _ (refl, refl), λ names. refl))
Codes-plain Plain.pop_alt sent =
    (_, (Writes-text sent (text Plain.pop_alt) _ (refl, refl), λ names. refl))
Codes-plain Plain.swap_pri sent =
    (_, (Writes-text sent (text Plain.swap_pri) _ (refl, refl), λ names. refl))
Codes-plain Plain.swap_alt sent =
    (_, (Writes-text sent (text Plain.swap_alt) _ (refl, refl), λ names. refl))
Codes-plain Plain.inc_i sent =
    (_, (Writes-text sent (text Plain.inc_i) _ (refl, refl), λ names. refl))
Codes-plain Plain.dec_i sent =
    (_, (Writes-text sent (text Plain.dec_i) _ (refl, refl), λ names. refl))
Codes-plain Plain.inc_pri sent =
    (_, (Writes-text sent (text Plain.inc_pri) _ (refl, refl), λ names. refl))
Codes-plain Plain.dec_pri sent =
    (_, (Writes-text sent (text Plain.dec_pri) _ (refl, refl), λ names. refl))
Codes-plain Plain.zero_pri sent =
    (_, (Writes-text sent (text Plain.zero_pri) _ (refl, refl), λ names. refl))
Codes-plain Plain.zero_alt sent =
    (_, (Writes-text sent (text Plain.zero_alt) _ (refl, refl), λ names. refl))
Codes-plain Plain.ret sent = (_, (Writes-text sent (text Plain.ret) _ (refl, refl), λ names. refl))
Codes-plain Plain.retn sent =
    (_, (Writes-text sent (text Plain.retn) _ (refl, refl), λ names. refl))
Codes-plain Plain.casetbl sent =
    (_, (Writes-text sent (text Plain.casetbl) _ (refl, refl), λ names. refl))
Codes-plain Plain.smul sent =
    (_, (Writes-text sent (text Plain.smul) _ (refl, refl), λ names. refl))
Codes-plain Plain.sdiv_alt sent =
    (_, (Writes-text sent (text Plain.sdiv_alt) _ (refl, refl), λ names. refl))
Codes-plain Plain.add sent = (_, (Writes-text sent (text Plain.add) _ (refl, refl), λ names. refl))
Codes-plain Plain.sub_alt sent =
    (_, (Writes-text sent (text Plain.sub_alt) _ (refl, refl), λ names. refl))
Codes-plain Plain.xchg sent =
    (_, (Writes-text sent (text Plain.xchg) _ (refl, refl), λ names. refl))
Codes-plain Plain.shl sent = (_, (Writes-text sent (text Plain.shl) _ (refl, refl), λ names. refl))
Codes-plain Plain.sshr sent =
    (_, (Writes-text sent (text Plain.sshr) _ (refl, refl), λ names. refl))
Codes-plain Plain.shr sent = (_, (Writes-text sent (text Plain.shr) _ (refl, refl), λ names. refl))
Codes-plain Plain.or sent = (_, (Writes-text sent (text Plain.or) _ (refl, refl), λ names. refl))
Codes-plain Plain.xor sent = (_, (Writes-text sent (text Plain.xor) _ (refl, refl), λ names. refl))
Codes-plain Plain.and sent = (_, (Writes-text sent (text Plain.and) _ (refl, refl), λ names. refl))
Codes-plain Plain.eq sent = (_, (Writes-text sent (text Plain.eq) _ (refl, refl), λ names. refl))
Codes-plain Plain.neq sent = (_, (Writes-text sent (text Plain.neq) _ (refl, refl), λ names. refl))
Codes-plain Plain.sless sent =
    (_, (Writes-text sent (text Plain.sless) _ (refl, refl), λ names. refl))
Codes-plain Plain.sleq sent =
    (_, (Writes-text sent (text Plain.sleq) _ (refl, refl), λ names. refl))
Codes-plain Plain.sgrtr sent =
    (_, (Writes-text sent (text Plain.sgrtr) _ (refl, refl), λ names. refl))
Codes-plain Plain.sgeq sent =
    (_, (Writes-text sent (text Plain.sgeq) _ (refl, refl), λ names. refl))
Codes-plain Plain.not sent = (_, (Writes-text sent (text Plain.not) _ (refl, refl), λ names. refl))
Codes-plain Plain.neg sent = (_, (Writes-text sent (text Plain.neg) _ (refl, refl), λ names. refl))
Codes-plain Plain.invert sent =
    (_, (Writes-text sent (text Plain.invert) _ (refl, refl), λ names. refl))
Codes-plain Plain.nop sent = (_, (Writes-text sent (text Plain.nop) _ (refl, refl), λ names. refl))
