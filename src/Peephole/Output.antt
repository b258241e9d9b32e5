-- ===== src/Peephole/Output.antt =====
-- `stgopt` (compiler/source/compiler/sc7.c) as a whole: its end, what it writes, and `code_idx`.
use mathlib.Core.Path.{subst}
use mathlib.Core.Option.{some-injective}
use mathlib.Core.List.{append_assoc, append-nil}
use pawn_x.Prelude.{
  ℕ, suc, ◌+◌, ◌≤◌, ◌≡◌, refl, ap, ◌∙◌, arith, Bool, true, false, inl, inr, ◌&&◌, ◌==◌,
  if◌then◌else◌, List, [], ◌∷◌, ◌++◌, Option, some, length, All, All-map, Bool-cases, and_lem,
  Option-cases,
}
use pawn_x.Peephole.Table.{Sequence}
use pawn_x.Peephole.Rules.{sequences, tried}
use pawn_x.Peephole.Optimise.{
  Optimization, optimize_none, optimize_nomacro, optimize_full, Status, stat_write, is_write,
  Staged, optimize, tried_sequences, strings_from, stgopt,
}
use pawn_x.Peephole.Optimise.Settle.{IsSettled, optimize_lem}
use pawn_x.Peephole.Shrink.{shrinks}
use pawn_x.Peephole.Size.{Place, gap, place, entered, text_size, is_closed, closes}
use pawn_x.Peephole.Size.Found.{entered-gap}
use pawn_x.Peephole.Size.Saved.{IsSound, is_gap_lem}
use pawn_x.Peephole.Size.Passes.{before_zero, optimize_size}
use pawn_x.Peephole.Sound.{tried-IsSound}

-- The code of strings that are written one by one.
unfoldable pub strings_size : List (List ℕ) → ℕ
unfolding text_size
strings_size [] = 0
strings_size (string ∷ strings) = text_size gap string + strings_size strings

-- A string up to here, of `n` bytes of code, with the place of its last byte.
abbrev Reached : List ℕ → ℕ → Place → Type 0
Reached string n p = (u : List ℕ) → text_size gap (string ++ u) ≡ n + text_size p u

Reached-byte :
    (string : List ℕ) (n : ℕ) (p : Place) (c : ℕ)
    → Reached string n p
    → Reached (string ++ c ∷ []) (n + entered p (place p c)) (place p c)
unfolding text_size
Reached-byte string n p c h u =
    omega (arith, h (c ∷ u), ap (text_size gap) (append_assoc string (c ∷ []) u))

strings_from_size :
    (string : List ℕ) (n : ℕ) (p : Place) (t : List ℕ)
    → Reached string n p
    → is_closed p t ≡ true
    → strings_size (strings_from string t) ≡ n + text_size p t
unfolding strings_size strings_from text_size is_closed
strings_from_size [] n p [] h c = h []
strings_from_size (d ∷ ds) n p [] h c =
    omega (arith, h [], ap (text_size gap) (append-nil (d ∷ ds)))
strings_from_size string n p (c ∷ t) h e =
    let (here, behind) = and_lem (closes p c) (is_closed (place p c) t) e in
    elim (Bool-cases (c == 0)) [
      | inl y ↦
          let before : p ≡ gap = is_gap_lem p (ground arith) in
          let now : place p c ≡ gap = before_zero p c before y in
          let others =
            strings_from_size [] 0 gap t (λ u. omega arith)
              (subst (λ q. is_closed q t ≡ true) now behind) in
          let cut : strings_from string (c ∷ t) ≡ string ∷ strings_from [] t = rw y refl in
          let no_word : entered p (place p c) ≡ 0 = ap (entered p) now ∙ entered-gap p in
          let whole = ap (text_size gap) (append-nil string) in
          omega
            (arith, others, h [], whole, no_word, ap (λ q. text_size q t) now, ap strings_size cut)
      | inr f ↦
          let longer =
            strings_from_size (string ++ c ∷ []) (n + entered p (place p c)) (place p c) t
              (Reached-byte string n p c h) behind in
          let kept : strings_from string (c ∷ t) ≡ strings_from (string ++ c ∷ []) t = rw f refl in
          omega (arith, longer, ap strings_size kept)
    ]

-- What a level tries is sound.
tried_sequences-IsSound :
    (level : Optimization) (qs : List Sequence) → tried_sequences level ≡ some qs → All IsSound qs
tried_sequences-IsSound optimize_none qs e = absurd (cc e)
tried_sequences-IsSound optimize_nomacro qs e =
    subst (All IsSound) (some-injective (tried true sequences) qs e) (tried-IsSound true)
tried_sequences-IsSound optimize_full qs e =
    subst (All IsSound) (some-injective (tried false sequences) qs e) (tried-IsSound false)

-- With sequences to try, the passes of `stgopt` come to an end, and in the text that is left none of
-- them matches at any string; that text is no longer than it was.
pub stgopt-IsSettled :
    (level : Optimization) (qs : List Sequence) (text : List ℕ)
    → tried_sequences level ≡ some qs
    → (r : Staged) × ((stgopt level stat_write false text
          ≡ some (strings_from [] (r.text), r.saved))
        × ((length (r.text) ≤ length text) × IsSettled qs (r.text)))
unfolding stgopt
stgopt-IsSettled level qs text e =
    let shorter =
      All-map IsSound (λ q. shrinks q ≡ true) (λ q s. s.0) qs
        (tried_sequences-IsSound level qs e) in
    let (r, (e', (l, (z, settled)))) =
      optimize_lem qs shorter (suc (length text)) text (omega arith) in
    (r, (rw (stgopt, e, e'), (l, settled)))

text_strings_size :
    (text : List ℕ)
    → is_closed gap text ≡ true
    → strings_size (strings_from [] text) ≡ text_size gap text
text_strings_size text c = omega (arith, strings_from_size [] 0 gap text (λ u. omega arith) c)

untouched_size :
    (text : List ℕ) (strings : List (List ℕ)) (saved : ℕ)
    → is_closed gap text ≡ true
    → ◌≡◌ {A = Option (List (List ℕ) × ℕ)} (some (strings_from [] text, 0)) (some (strings, saved))
    → text_size gap text ≡ saved + strings_size strings
untouched_size text strings saved c e =
    let p = some-injective (strings_from [] text, 0) (strings, saved) e in
    subst (λ (o : List (List ℕ) × ℕ). text_size gap text ≡ o.1 + strings_size o.0) p
      (omega (arith, text_strings_size text c))

-- What the strings that `stgopt` writes are smaller by than the text was, is what it takes from
-- `code_idx`, whatever the level and the state, provided each string of the text is closed.
pub stgopt-strings_size :
    (level : Optimization) (status : Status) (emitting : Bool) (text : List ℕ)
    (strings : List (List ℕ)) (saved : ℕ)
    → is_closed gap text ≡ true
    → stgopt level status emitting text ≡ some (strings, saved)
    → text_size gap text ≡ saved + strings_size strings
unfolding stgopt
stgopt-strings_size level status emitting text strings saved c e =
    elim (Option-cases (tried_sequences level)) [
      | inl n ↦ untouched_size text strings saved c (rw (stgopt, n) at e)
      | inr (qs, m) ↦ elim (Bool-cases (is_write status && (if emitting then false else true))) [
        | inl y ↦ elim (Option-cases (optimize qs (suc (length text)) text)) [
          | inl n ↦ absurd (cc (rw (stgopt, m, y, n) at e))
          | inr (r, o) ↦
              let (size, closed) =
                optimize_size qs (suc (length text)) text r (tried_sequences-IsSound level qs m) c
                  o in
              let p =
                some-injective (strings_from [] (r.text), r.saved) (strings, saved)
                  (rw (stgopt, m, y, o) at e) in
              subst (λ (o : List (List ℕ) × ℕ). text_size gap text ≡ o.1 + strings_size o.0) p
                (omega (arith, text_strings_size (r.text) closed, size))
        ]
        | inr f ↦ untouched_size text strings saved c (rw (stgopt, m, f) at e)
      ]
    ]
