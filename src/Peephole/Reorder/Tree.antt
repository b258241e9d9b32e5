-- ===== src/Peephole/Reorder/Tree.antt =====
-- The calls in a text, as `stgstring` (compiler/source/compiler/sc7.c) finds them by their brackets.
use mathlib.Core.List.{append_assoc, append-nil}
use pawn_x.Prelude.{
  ℕ, ◌+◌, ◌-◌, ◌≤◌, ◌≡◌, refl, ap, sym, ◌∙◌, arith, Bool, true, false, ◌&&◌, not, ltb, leb, ◌==◌,
  if◌then◌else◌, and_lem, List, [], ◌∷◌, ◌++◌, Option, some,
}
use pawn_x.Peephole.Reorder.{start_reorder, end_reorder, expr_start, Args, scan_args}

-- Strings, each with its zero byte, none of which begins with a mark.
pub is_plain : Bool → List ℕ → Bool
is_plain string [] = not string
is_plain string (c ∷ s) =
    let rest = is_plain (not (c == 0)) s in
    (if string then true else ltb end_reorder c && ltb c expr_start) && rest

mutual
  pub data Code : Type 0 where
    done : Code
    strings : List ℕ → Code → Code
    call : Group → Code → Code

  pub data Group : Type 0 where
    no_argument : Group
    argument : ℕ → Code → Group → Group

mutual
  pub encode : Code → List ℕ
  encode done = []
  encode (strings s k) = s ++ encode k
  encode (call g k) = start_reorder ∷ (encode_group g ++ (end_reorder ∷ encode k))

  pub encode_group : Group → List ℕ
  encode_group no_argument = []
  encode_group (argument i c g) = (expr_start + i) ∷ (encode c ++ encode_group g)

mutual
  pub is_code : Code → Bool
  is_code done = true
  is_code (strings s k) = is_plain false s && is_code k
  is_code (call g k) = is_group g && is_code k

  pub is_group : Group → Bool
  is_group no_argument = true
  is_group (argument i c g) = is_code c && is_group g

-- Plain strings go to the argument as they are.
scan_args-is_plain :
    (string : Bool) (nest k : ℕ) (bytes : List ℕ) (stack : Args) (s rest : List ℕ)
    → is_plain string s ≡ true
    → scan_args string nest (some (k, bytes)) stack (s ++ rest)
      ≡ scan_args false nest (some (k, bytes ++ s)) stack rest
unfolding scan_args is_plain
scan_args-is_plain false nest k bytes stack [] rest h =
    ap (λ b. scan_args false nest (some (k, b)) stack rest) (sym (append-nil bytes))
scan_args-is_plain true nest k bytes stack [] rest h = absurd (cc h)
scan_args-is_plain true nest k bytes stack (c ∷ s) rest h =
    scan_args-is_plain (not (c == 0)) nest k (bytes ++ c ∷ []) stack s rest h
    ∙ ap (λ b. scan_args false nest (some (k, b)) stack rest) (append_assoc bytes (c ∷ []) s)
scan_args-is_plain false nest k bytes stack (c ∷ s) rest h =
    let (first, others) =
      and_lem (ltb end_reorder c && ltb c expr_start) (is_plain (not (c == 0)) s) h in
    let no_start : (c == start_reorder) ≡ false = ground arith in
    let no_end : (c == end_reorder) ≡ false = ground arith in
    let no_mark : leb expr_start c ≡ false = ground arith in
    let inside = scan_args-is_plain (not (c == 0)) nest k (bytes ++ c ∷ []) stack s rest others in
    rw (no_start, no_end, no_mark)
      (inside
        ∙ ap (λ b. scan_args false nest (some (k, b)) stack rest) (append_assoc bytes (c ∷ []) s))

-- A bracket or mark in an inner block goes to the argument as well.
scan_args-open :
    (nest k : ℕ) (bytes : List ℕ) (stack : Args) (rest : List ℕ)
    → scan_args false nest (some (k, bytes)) stack (start_reorder ∷ rest)
      ≡ scan_args false (nest + 1) (some (k, bytes ++ start_reorder ∷ [])) stack rest
unfolding scan_args
scan_args-open nest k bytes stack rest = refl

scan_args-close :
    (nest k : ℕ) (bytes : List ℕ) (stack : Args) (rest : List ℕ)
    → 1 ≤ nest
    → scan_args false (nest + 1) (some (k, bytes)) stack (end_reorder ∷ rest)
      ≡ scan_args false nest (some (k, bytes ++ end_reorder ∷ [])) stack rest
unfolding scan_args
scan_args-close nest k bytes stack rest h =
    let inner : (nest + 1 == 1) ≡ false = ground arith in
    let same : nest + 1 - 1 ≡ nest = omega arith in
    rw inner (ap (λ n. scan_args false n (some (k, bytes ++ end_reorder ∷ [])) stack rest) same)

scan_args-mark :
    (nest k i : ℕ) (bytes : List ℕ) (stack : Args) (rest : List ℕ)
    → 1 ≤ nest
    → scan_args false (nest + 1) (some (k, bytes)) stack ((expr_start + i) ∷ rest)
      ≡ scan_args false (nest + 1) (some (k, bytes ++ (expr_start + i) ∷ [])) stack rest
unfolding scan_args
scan_args-mark nest k i bytes stack rest h =
    let inner : (nest + 1 == 1) ≡ false = ground arith in
    let no_start : (expr_start + i == start_reorder) ≡ false = ground arith in
    let no_end : (expr_start + i == end_reorder) ≡ false = ground arith in
    let mark : leb expr_start (expr_start + i) ≡ true = ground arith in
    rw (no_start, no_end, mark, inner) refl

-- Code in an argument goes to the argument as it is, with the calls in it.
mutual
  unfolding encode encode_group is_code is_group

  scan_args-encode :
      (c : Code) (nest k : ℕ) (bytes : List ℕ) (stack : Args) (rest : List ℕ)
      → 1 ≤ nest
      → is_code c ≡ true
      → scan_args false nest (some (k, bytes)) stack (encode c ++ rest)
        ≡ scan_args false nest (some (k, bytes ++ encode c)) stack rest
  scan_args-encode done nest k bytes stack rest n h =
      ap (λ b. scan_args false nest (some (k, b)) stack rest) (sym (append-nil bytes))
  scan_args-encode (strings s c) nest k bytes stack rest n h =
      let (here, behind) = and_lem (is_plain false s) (is_code c) h in
      ap (λ t. scan_args false nest (some (k, bytes)) stack t) (append_assoc s (encode c) rest)
      ∙ scan_args-is_plain false nest k bytes stack s (encode c ++ rest) here
      ∙ scan_args-encode c nest k (bytes ++ s) stack rest n behind
      ∙ ap (λ b. scan_args false nest (some (k, b)) stack rest) (append_assoc bytes s (encode c))
  scan_args-encode (call g c) nest k bytes stack rest n h =
      let (here, behind) = and_lem (is_group g) (is_code c) h in
      let inner = encode_group g in
      let tail = end_reorder ∷ encode c in
      let opened = bytes ++ start_reorder ∷ [] in
      let filled = opened ++ inner in
      let scanned : List ℕ → Option (Args × List ℕ) =
        λ b. scan_args false nest (some (k, b)) stack rest in
      scan_args-open nest k bytes stack ((inner ++ tail) ++ rest)
      ∙ ap (λ t. scan_args false (nest + 1) (some (k, opened)) stack t)
          (append_assoc inner tail rest)
      ∙ scan_args-encode_group g nest k opened stack (tail ++ rest) n here
      ∙ scan_args-close nest k filled stack (encode c ++ rest) n
      ∙ scan_args-encode c nest k (filled ++ end_reorder ∷ []) stack rest n behind
      ∙ ap scanned (append_assoc filled (end_reorder ∷ []) (encode c))
      ∙ ap scanned (append_assoc opened inner tail)
      ∙ ap scanned (append_assoc bytes (start_reorder ∷ []) (inner ++ tail))

  scan_args-encode_group :
      (g : Group) (nest k : ℕ) (bytes : List ℕ) (stack : Args) (rest : List ℕ)
      → 1 ≤ nest
      → is_group g ≡ true
      → scan_args false (nest + 1) (some (k, bytes)) stack (encode_group g ++ rest)
        ≡ scan_args false (nest + 1) (some (k, bytes ++ encode_group g)) stack rest
  scan_args-encode_group no_argument nest k bytes stack rest n h =
      ap (λ b. scan_args false (nest + 1) (some (k, b)) stack rest) (sym (append-nil bytes))
  scan_args-encode_group (argument i c g) nest k bytes stack rest n h =
      let (here, behind) = and_lem (is_code c) (is_group g) h in
      let mark = expr_start + i in
      let opened = bytes ++ mark ∷ [] in
      let scanned : List ℕ → Option (Args × List ℕ) =
        λ b. scan_args false (nest + 1) (some (k, b)) stack rest in
      scan_args-mark nest k i bytes stack ((encode c ++ encode_group g) ++ rest) n
      ∙ ap (λ t. scan_args false (nest + 1) (some (k, opened)) stack t)
          (append_assoc (encode c) (encode_group g) rest)
      ∙ scan_args-encode c (nest + 1) k opened stack (encode_group g ++ rest) (omega arith) here
      ∙ scan_args-encode_group g nest k (opened ++ encode c) stack rest n behind
      ∙ ap scanned (append_assoc opened (encode c) (encode_group g))
      ∙ ap scanned (append_assoc bytes (mark ∷ []) (encode c ++ encode_group g))
