-- ===== src/Assembler/Passes/Layout.antt =====
-- The code of `assemble` (sc6.c): its size, and where its labels point.
use mathlib.Core.List.{append_assoc, append-nil}
use native.Mathlib.Nat.{zero-add}
use pawn_x.Prelude.{
  ℕ, zero, suc, ◌+◌, ◌*◌, ◌<◌, ◌≡◌, refl, ap, sym, ◌∙◌, arith, true, false, inl, inr, if◌then◌else◌,
  List, [], ◌∷◌, ◌++◌, some, length, length-append, length-replicate, get_elem?, get_elem?-set_ne,
  get_elem?-set_self, take-append, set, length-set, All, take, Bool-cases,
}
use pawn_x.Assembler.Table.{
  Segment, no_segment, cseg, dseg, Func, noop, set_currentfile, parm0, parm1, parm2, parm3, parm4,
  parm5, do_dump, do_dumpn, do_call, do_jump, do_case,
}
use pawn_x.Assembler.Number.{Names, hex2long}
use pawn_x.Assembler.Emit.{getparams, dump_count, written_cells, returned_size}
use pawn_x.Assembler.Passes.{
  Line, blank_line, label_line, instruction, is_cseg, same_segment, follow, first_pass, second_pass,
}

pub length-getparams :
    (n : ℕ) (names : Names) (params : List ℕ) → length (getparams n names params) ≡ n
unfolding getparams
length-getparams zero names params = refl
length-getparams (suc n) names params = ap suc (length-getparams n names _)

-- The size that a function returns in the first pass is that of what it writes later.
returned_size_lem :
    (func : Func) (names : Names) (params : List ℕ) (opcode : ℕ)
    → returned_size func params ≡ 4 * length (written_cells func names params opcode)
unfolding returned_size written_cells
returned_size_lem noop names params opcode = refl
returned_size_lem set_currentfile names params opcode = refl
returned_size_lem parm0 names params opcode = refl
returned_size_lem parm1 names params opcode = omega (arith, length-getparams 1 names params)
returned_size_lem parm2 names params opcode = omega (arith, length-getparams 2 names params)
returned_size_lem parm3 names params opcode = omega (arith, length-getparams 3 names params)
returned_size_lem parm4 names params opcode = omega (arith, length-getparams 4 names params)
returned_size_lem parm5 names params opcode = omega (arith, length-getparams 5 names params)
returned_size_lem do_dump names params opcode = omega arith
returned_size_lem do_dumpn names params opcode =
    omega (arith, length-replicate (dump_count params) (hex2long params).0)
returned_size_lem do_call names params opcode = refl
returned_size_lem do_jump names params opcode = refl
returned_size_lem do_case names params opcode = refl

is_cseg_lem : (s : Segment) → same_segment s cseg ≡ is_cseg s
is_cseg_lem no_segment = refl
is_cseg_lem cseg = refl
is_cseg_lem dseg = refl

-- The bytes of code of lines.
abbrev pub code_bytes : Names → List Line → ℕ
code_bytes names lines = 4 * length (second_pass cseg names lines)

-- The names in front of the lines behind some.
unfoldable pub names_after : Names → List Line → Names
names_after names [] = names
names_after names (blank_line ∷ lines) = names_after names lines
names_after names (label_line i ∷ lines) = names_after names lines
names_after names (instruction op params ∷ lines) =
    names_after (if same_segment (op.segment) cseg then follow names op params else names) lines

pub second_pass-append :
    (names : Names) (before after : List Line)
    → second_pass cseg names (before ++ after)
      ≡ second_pass cseg names before ++ second_pass cseg (names_after names before) after
unfolding second_pass names_after
second_pass-append names [] after = refl
second_pass-append names (blank_line ∷ lines) after = second_pass-append names lines after
second_pass-append names (label_line i ∷ lines) after = second_pass-append names lines after
second_pass-append names (instruction op params ∷ lines) after =
    elim (Bool-cases (same_segment (op.segment) cseg)) [
      | inl y ↦
          let cells = written_cells (op.func) names params (op.opcode) in
          let names' = follow names op params in
          rw y (
            ap (λ u. cells ++ u) (second_pass-append names' lines after)
            ∙ sym (
                append_assoc cells (second_pass cseg names' lines)
                  (second_pass cseg (names_after names' lines) after)))
      | inr f ↦ rw f (second_pass-append names lines after)
    ]

-- `codeindex` behind lines.
first_pass-append :
    (names : Names) (before after : List Line) (codeindex : ℕ) (lbltab : List ℕ)
    → (tab : List ℕ) × ((first_pass (before ++ after) codeindex lbltab
          ≡ first_pass after (codeindex + code_bytes names before) tab)
        × (length tab ≡ length lbltab))
unfolding first_pass second_pass
first_pass-append names [] after codeindex lbltab =
    let same : codeindex + 4 * 0 ≡ codeindex = omega arith in (lbltab, (rw same refl, refl))
first_pass-append names (blank_line ∷ lines) after codeindex lbltab =
    first_pass-append names lines after codeindex lbltab
first_pass-append names (label_line i ∷ lines) after codeindex lbltab =
    let (tab, (e, l)) = first_pass-append names lines after codeindex (set lbltab i codeindex) in
    (tab, (e, l ∙ length-set lbltab i codeindex))
first_pass-append names (instruction op params ∷ lines) after codeindex lbltab =
    elim (Bool-cases (same_segment (op.segment) cseg)) [
      | inl y ↦
          let cells = written_cells (op.func) names params (op.opcode) in
          let names' = follow names op params in
          let size = returned_size (op.func) params in
          let (tab, (e, l)) = first_pass-append names' lines after (codeindex + size) lbltab in
          let here : is_cseg (op.segment) ≡ true = sym (is_cseg_lem (op.segment)) ∙ y in
          let counted : (if is_cseg (op.segment) then size else 0) ≡ size = rw here refl in
          let written : second_pass cseg names (instruction op params ∷ lines)
              ≡ cells ++ second_pass cseg names' lines =
            rw y refl in
          let bytes : codeindex + size + code_bytes names' lines
              ≡ codeindex + code_bytes names (instruction op params ∷ lines) =
            omega (
              arith,
              returned_size_lem (op.func) names params (op.opcode),
              ap length written,
              length-append cells (second_pass cseg names' lines),
            ) in
          (
            tab,
            (
              ap (λ n. first_pass (lines ++ after) (codeindex + n) lbltab) counted
                  ∙ e
                  ∙ ap (λ n. first_pass after n tab) bytes,
              l,
            ),
          )
      | inr f ↦
          let (tab, (e, l)) = first_pass-append names lines after codeindex lbltab in
          let here : is_cseg (op.segment) ≡ false = sym (is_cseg_lem (op.segment)) ∙ f in
          let counted : codeindex
                + (if is_cseg (op.segment) then returned_size (op.func) params else 0)
              ≡ codeindex =
            rw here (omega arith) in
          let written : second_pass cseg names (instruction op params ∷ lines)
              ≡ second_pass cseg names lines =
            rw f refl in
          (
            tab,
            (
              ap (λ n. first_pass (lines ++ after) n lbltab) counted
                  ∙ e
                  ∙ ap (λ u. first_pass after (codeindex + 4 * length u) tab) (sym written),
              l,
            ),
          )
    ]

-- A label that lines do not set keeps its address.
abbrev pub Sets : ℕ → Line → Type 0
Sets i blank_line = ⊥
Sets i (label_line j) = i ≡ j
Sets i (instruction op params) = ⊥

first_pass-get_elem? :
    (i : ℕ) (lines : List Line) (codeindex : ℕ) (lbltab : List ℕ)
    → All (λ l. ¬ Sets i l) lines
    → get_elem? (first_pass lines codeindex lbltab).1 i ≡ get_elem? lbltab i
unfolding first_pass
first_pass-get_elem? i [] codeindex lbltab h = refl
first_pass-get_elem? i (blank_line ∷ lines) codeindex lbltab (h, hs) =
    first_pass-get_elem? i lines codeindex lbltab hs
first_pass-get_elem? i (label_line j ∷ lines) codeindex lbltab (h, hs) =
    first_pass-get_elem? i lines codeindex (set lbltab j codeindex) hs
    ∙ get_elem?-set_ne lbltab codeindex (λ e. h (sym e))
first_pass-get_elem? i (instruction op params ∷ lines) codeindex lbltab (h, hs) =
    first_pass-get_elem? i lines _ lbltab hs

-- The first pass gives a label that is set last between `before` and `after` the number of bytes of
-- the code of `before`, which is where the code of `after` begins; and it ends with the size of all
-- code.
pub first_pass-second_pass :
    (names : Names) (before after : List Line) (i : ℕ) (lbltab : List ℕ)
    → i < length lbltab
    → All (λ l. ¬ Sets i l) after
    → (get_elem? (first_pass (before ++ label_line i ∷ after) 0 lbltab).1 i
        ≡ some (4 * length (second_pass cseg names before)))
      × ((take
              (length (second_pass cseg names before))
              (second_pass cseg names (before ++ label_line i ∷ after))
            ≡ second_pass cseg names before)
          × ((first_pass (before ++ label_line i ∷ after) 0 lbltab).0
              ≡ 4 * length (second_pass cseg names (before ++ label_line i ∷ after))))
unfolding first_pass
first_pass-second_pass names before after i lbltab h none_set =
    let address = 4 * length (second_pass cseg names before) in
    let (tab, (e, l)) = first_pass-append names before (label_line i ∷ after) 0 lbltab in
    let last = set tab i (0 + address) in
    let kept = first_pass-get_elem? i after (0 + address) last none_set in
    let own = get_elem?-set_self tab i (0 + address) (omega (arith, h, l)) in
    let (tab', (e', l')) = first_pass-append names (before ++ label_line i ∷ after) [] 0 lbltab in
    let whole =
      ap (λ ls. (first_pass ls 0 lbltab).0) (append-nil (before ++ label_line i ∷ after)) in
    (
      ap (λ (r : ℕ × List ℕ). get_elem? r.1 i) e ∙ kept ∙ own ∙ ap (λ a. some a) (zero-add address),
      (
        ap (take (length (second_pass cseg names before)))
              (second_pass-append names before (label_line i ∷ after))
            ∙ take-append (second_pass cseg names before)
                (second_pass cseg (names_after names before) (label_line i ∷ after)),
        sym whole
            ∙ ap (λ (r : ℕ × List ℕ). r.0) e'
            ∙ zero-add (code_bytes names (before ++ label_line i ∷ after)),
      ),
    )
