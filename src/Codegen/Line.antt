-- ===== src/Codegen/Line.antt =====
-- One line of the code generator (sc4.c), as the assembler reads it: a name with what follows, or a
-- comment.
use mathlib.Core.List.{append_assoc, append-nil}
use mathlib.Core.Path.{subst}
use pawn_x.Prelude.{
  ℕ, ◌+◌, ◌≡◌, refl, ap, sym, ◌∙◌, true, ◌&&◌, if◌then◌else◌, List, [], ◌∷◌, ◌++◌, Option, some,
  arith, ◌==◌, All,
}
use pawn_x.Prelude.Chars.{itoh, to_lower}
use pawn_x.Assembler.Table.{Opcode}
use pawn_x.Assembler.Number.{hex2long}
use pawn_x.Assembler.Emit.{skipwhitespace, returned_size}
use pawn_x.Assembler.Passes.{
  Line, blank_line, label_line, instruction, is_cseg, first_pass, stripcomment, read_line,
  read_instruction,
}
use pawn_x.Codegen.Lines.{text_of, is_clean, one_line}
use pawn_x.Codegen.Writes.{Writes, Writes-line, text_of-append}
use pawn_x.Codegen.Clean.{one_line-append, is_clean-one_line, stripcomment-append, itoh-is_clean}
use pawn_x.Codegen.Sends.{Steps, Sends}

-- The end of `read_line`.
abbrev pub read_stripped : List ℕ → Option Line
read_stripped line = elim (skipwhitespace line) [
  | [] ↦ some blank_line
  | c ∷ s ↦ elim s [
    | [] ↦ read_instruction (c ∷ [])
    | d ∷ t ↦
        if (to_lower c == b'l') && (d == b'.')
        then some (label_line (hex2long t).0)
        else read_instruction (c ∷ d ∷ t)
  ]
]

pub read_line-read_stripped : (l : List ℕ) → read_line l ≡ read_stripped (stripcomment l)
unfolding read_line
read_line-read_stripped l = refl

-- Behind the text of a name the assembler finds an instruction of a size, whatever its parameters.
unfoldable pub Names : List ℕ → ℕ → Type 0
Names name n =
    (op : Opcode) × ((ps : List ℕ)
      → read_stripped (name ++ ps) ≡ some (instruction op (skipwhitespace ps)))
    × ((ps : List ℕ) → (if is_cseg (op.segment) then returned_size (op.func) ps else 0) ≡ n)

-- A line with a name, a text without a comment, and perhaps a comment.
pub Writes-instruction :
    (sent parts : List (List ℕ)) (name params comment : List ℕ) (op : Opcode)
    → ((ps : List ℕ) → read_stripped (name ++ ps) ≡ some (instruction op (skipwhitespace ps)))
    → is_clean name ≡ true
    → is_clean params ≡ true
    → one_line comment ≡ true
    → text_of parts ≡ name ++ (params ++ comment)
    → Writes sent
        ((10 ∷ []) ∷ (parts ++ sent))
        (instruction op (skipwhitespace (params ++ stripcomment (comment ++ 10 ∷ []))) ∷ [])
Writes-instruction sent parts name params comment op reads cn cp cc' e =
    let rest = params ++ stripcomment (comment ++ 10 ∷ []) in
    let whole : text_of parts ++ 10 ∷ [] ≡ name ++ (params ++ (comment ++ 10 ∷ [])) =
      ap (λ t. t ++ 10 ∷ []) e
      ∙ append_assoc name (params ++ comment) (10 ∷ [])
      ∙ ap (λ t. name ++ t) (append_assoc params comment (10 ∷ [])) in
    let stripped : stripcomment (name ++ (params ++ (comment ++ 10 ∷ []))) ≡ name ++ rest =
      stripcomment-append name (params ++ (comment ++ 10 ∷ [])) cn
      ∙ ap (λ t. name ++ t) (stripcomment-append params (comment ++ 10 ∷ []) cp) in
    let single : one_line (text_of parts) ≡ true =
      ap one_line e
      ∙ one_line-append name (params ++ comment) (is_clean-one_line name cn)
          (one_line-append params comment (is_clean-one_line params cp) cc') in
    let line : read_line (text_of parts ++ 10 ∷ []) ≡ some (instruction op (skipwhitespace rest)) =
      ap read_line whole
      ∙ read_line-read_stripped (name ++ (params ++ (comment ++ 10 ∷ [])))
      ∙ ap read_stripped stripped
      ∙ reads rest in
    Writes-line sent parts (instruction op (skipwhitespace rest)) single line

pub Sends-line :
    (sent parts : List (List ℕ)) (name params comment : List ℕ) (n : ℕ)
    → Names name n
    → is_clean name ≡ true
    → is_clean params ≡ true
    → one_line comment ≡ true
    → text_of parts ≡ name ++ (params ++ comment)
    → Sends sent ((10 ∷ []) ∷ (parts ++ sent)) n
unfolding Names Sends Steps first_pass
Sends-line sent parts name params comment n (op, reads, size) cn cp cc' e =
    let rest = skipwhitespace (params ++ stripcomment (comment ++ 10 ∷ [])) in
    (
      instruction op rest ∷ [],
      (
        Writes-instruction sent parts name params comment op reads cn cp cc' e,
        λ c t. ap (λ k. (c + k, t)) (size rest),
      ),
    )

-- The line of an instruction with a number.
pub Sends-number :
    (sent : List (List ℕ)) (name : List ℕ) (v n : ℕ)
    → Names name n
    → is_clean name ≡ true
    → Sends sent ((10 ∷ []) ∷ (itoh v ∷ name ∷ sent)) n
unfolding text_of one_line
Sends-number sent name v n found clean =
    Sends-line sent (itoh v ∷ name ∷ []) name (itoh v) [] n found clean (itoh-is_clean v) refl
      (ap (λ t. name ++ t) (sym (append-nil (itoh v))))

pub itoh-one_line : (v : ℕ) → one_line (itoh v) ≡ true
itoh-one_line v = is_clean-one_line (itoh v) (itoh-is_clean v)

pub one_line-text_of :
    (parts : List (List ℕ)) → All (λ t. one_line t ≡ true) parts → one_line (text_of parts) ≡ true
unfolding text_of one_line
one_line-text_of [] e = refl
one_line-text_of (t ∷ parts) (e, es) =
    one_line-append (text_of parts) t (one_line-text_of parts es) e

-- The line of a name with strings behind it.
pub Sends-named :
    (sent parts : List (List ℕ)) (name : List ℕ) (n : ℕ)
    → Names name n
    → is_clean name ≡ true
    → All (λ t. one_line t ≡ true) parts
    → Sends sent ((10 ∷ []) ∷ (parts ++ (name ∷ sent))) n
unfolding text_of is_clean
Sends-named sent parts name n found clean single =
    let line =
      Sends-line sent (parts ++ (name ∷ [])) name [] (text_of parts) n found clean refl
        (one_line-text_of parts single) (text_of-append parts (name ∷ [])) in
    subst (λ x. Sends sent ((10 ∷ []) ∷ x) n) (append_assoc parts (name ∷ []) sent) line

-- A line with nothing but a comment.
pub Sends-comment :
    (sent parts : List (List ℕ)) (comment : List ℕ)
    → text_of parts ≡ 9 ∷ (b';' ∷ comment)
    → one_line comment ≡ true
    → Sends sent ((10 ∷ []) ∷ (parts ++ sent)) 0
unfolding Sends Steps first_pass one_line read_line stripcomment skipwhitespace
Sends-comment sent parts comment e single = (
  blank_line ∷ [],
  (
    Writes-line sent parts blank_line (ap one_line e ∙ single)
        (ap (λ t. read_line (t ++ 10 ∷ [])) e),
    λ c t. ap (λ k. (k, t)) (omega arith),
  ),
)
