-- ===== src/Peephole/Optimise.antt =====
-- The loops of `stgopt` (sc7.c), with `sOPTIMIZE_...` and `stat...` of sc.h. The loops run on fuel.
pub mod Settle
use pawn_x.Prelude.{
  ℕ, zero, suc, ◌+◌, ◌-◌, Bool, true, false, ◌&&◌, leb, ◌==◌, if◌then◌else◌, List, [], ◌∷◌, ◌++◌,
  Option, none, some, length,
}
use pawn_x.Peephole.{Symbols, matchsequence, replacesequence, strreplace}
use pawn_x.Peephole.Table.{Sequence}
use pawn_x.Peephole.Rules.{sequences, tried}

-- `pc_optimize`
pub data Optimization : Type 0 where
  optimize_none optimize_nomacro optimize_full : Optimization

-- `sc_status`
pub data Status : Type 0 where
  stat_idle stat_first stat_second stat_write stat_skip : Status

-- What the loops change: the text, `matches`, and what is taken from `code_idx`.
pub record Staged : Type 0 where
  pub text : List ℕ
  pub matches : ℕ
  pub saved : ℕ

-- The body under `if (matchsequence(...))`; `next` is what `seq++` leads to.
abbrev pub rewritten :
    Sequence → List ℕ → Option (List ℕ × Symbols) → Option (List ℕ × ℕ) → Option (List ℕ × ℕ)
rewritten q text none next = next
rewritten q text (some (rest, s)) next =
    let replace = replacesequence q.replace s in
    let match_length = length text - length rest in
    if leb (length replace) match_length
    then some (strreplace text replace match_length, q.savesize)
    else next

-- From `seq=0` to the first sequence that is applied: the new text and its `savesize`.
unfoldable pub rewrite_first : List Sequence → List ℕ → Option (List ℕ × ℕ)
unfolding matchsequence replacesequence strreplace
rewrite_first [] text = none
rewrite_first (q ∷ qs) text =
    let next = rewrite_first qs text in rewritten q text (matchsequence text q.find) next

abbrev pub counted : ℕ → Option Staged → Option Staged
counted savesize none = none
counted savesize (some r) =
    some (record { text = r.text; matches = suc r.matches; saved = savesize + r.saved })

-- The loop over `seq` at one `start`.
unfoldable pub rewrite_start : List Sequence → ℕ → List ℕ → Option Staged
unfolding rewrite_first
rewrite_start qs zero text = none
rewrite_start qs (suc fuel) text = elim (rewrite_first qs text) [
  | none ↦ some (record { text = text; matches = 0; saved = 0 })
  | some (text', savesize) ↦ counted savesize (rewrite_start qs fuel text')
]

-- The string at `start` with its zero byte, and what `start += strlen(start) + 1` leads to.
unfoldable pub next_string : List ℕ → List ℕ × List ℕ
next_string [] = ([], [])
next_string (c ∷ t) =
    let (string, rest) = next_string t in if c == 0 then (c ∷ [], t) else (c ∷ string, rest)

-- A string that is done, in front of the rest of the pass.
abbrev pub behind : List ℕ → Staged → Option Staged → Option Staged
behind string r none = none
behind string r (some r') = some (record {
  text = string ++ r'.text;
  matches = r.matches + r'.matches;
  saved = r.saved + r'.saved;
})

-- `while (start<end)`
unfoldable pub optimize_pass : List Sequence → ℕ → List ℕ → Option Staged
unfolding rewrite_start next_string
optimize_pass qs zero text = none
optimize_pass qs (suc fuel) [] = some (record { text = []; matches = 0; saved = 0 })
optimize_pass qs (suc fuel) (c ∷ t) = elim (rewrite_start qs (suc fuel) (c ∷ t)) [
  | none ↦ none
  | some r ↦ behind (next_string (r.text)).0 r (optimize_pass qs fuel (next_string (r.text)).1)
]

-- `do ... while (matches>0)`; `matches` is that of the last pass.
unfoldable pub optimize : List Sequence → ℕ → List ℕ → Option Staged
unfolding optimize_pass
optimize qs zero text = none
optimize qs (suc fuel) text = elim (optimize_pass qs (suc fuel) text) [
  | none ↦ none
  | some r ↦ elim (r.matches) [
    | zero ↦ some r
    | suc m ↦ elim (optimize qs fuel (r.text)) [
      | none ↦ none
      | some r' ↦ some (record { text = r'.text; matches = r'.matches; saved = r.saved + r'.saved })
    ]
  ]
]

abbrev pub is_write : Status → Bool
is_write stat_write = true
is_write status = false

-- `pc_optimize>sOPTIMIZE_NONE`, with the sequences that it tries.
abbrev pub tried_sequences : Optimization → Option (List Sequence)
tried_sequences optimize_none = none
tried_sequences optimize_nomacro = some (tried true sequences)
tried_sequences optimize_full = some (tried false sequences)

-- The strings that `outputfunc` gets, without the zero bytes.
unfoldable pub strings_from : List ℕ → List ℕ → List (List ℕ)
strings_from string [] = elim string [ [] ↦ [] | d ∷ ds ↦ (d ∷ ds) ∷ [] ]
strings_from string (c ∷ t) =
    let rest = strings_from [] t in
    let longer = strings_from (string ++ c ∷ []) t in if c == 0 then string ∷ rest else longer

-- `stgopt`: the strings that are written, and what is taken from `code_idx`. `emitting` is
-- `emit_stgbuf_idx!=-1`.
unfoldable pub stgopt : Optimization → Status → Bool → List ℕ → Option (List (List ℕ) × ℕ)
unfolding optimize strings_from
stgopt level status emitting text =
    let untouched = some (strings_from [] text, 0) in
    elim (tried_sequences level) [
      | none ↦ untouched
      | some qs ↦
          if is_write status && (if emitting then false else true)
          then elim (optimize qs (suc (length text)) text) [
            | none ↦ none
            | some r ↦ some (strings_from [] (r.text), r.saved)
          ]
          else untouched
    ]
