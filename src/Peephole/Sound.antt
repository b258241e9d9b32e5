-- ===== src/Peephole/Sound.antt =====
-- `stgopt` (sc7.c) with the sequences of the table.
use mathlib.Core.Path.{subst}
use mathlib.Core.Option.{some-injective}
use pawn_x.Prelude.{
  ℕ, zero, suc, ◌+◌, ◌<◌, ◌≡◌, refl, arith, Bool, true, false, inl, inr, ◌&&◌, ◌||◌, if◌then◌else◌,
  List, [], ◌∷◌, ◌++◌, some, length, All, All-map, get_elem?, ◌-◌, Bool-cases, and_lem, and_intro,
}
use pawn_x.Peephole.Table.{Sequence}
use pawn_x.Peephole.Rules.{sequences, tried, is_separator}
use pawn_x.Peephole.Table.Loads.{loads}
use pawn_x.Peephole.Table.Chains.{chains}
use pawn_x.Peephole.Table.Entries.{entries}
use pawn_x.Peephole.Table.Arrays.{arrays}
use pawn_x.Peephole.Table.Moves.{moves}
use pawn_x.Peephole.Table.Pushes.{pushes}
use pawn_x.Peephole.Table.Constants.{constants}
use pawn_x.Peephole.Table.Jumps.{jumps}
use pawn_x.Peephole.Table.Counting.{counting}
use pawn_x.Peephole.Table.Natives.{natives}
use pawn_x.Peephole.Table.Macros.{macros}
use pawn_x.Prelude.Chars.{codes, itoh, itoh_from}
use pawn_x.Peephole.{Symbols, plain, scan, matchsequence, replacesequence, repl_length}
use pawn_x.Peephole.Shrink.{shrinks, shrinks_lem, vars, fixed_found, fixed_written, remove, spare}
use pawn_x.Peephole.Optimise.Settle.{replaced}
use pawn_x.Peephole.Buffer.{fills, ends_line, length-replacesequence}
use pawn_x.Peephole.Size.{
  gap, text_size, saves, template_size, template_end, all_written, all_in_symbol,
}
use pawn_x.Peephole.Size.Saved.{IsSound, replaced_lem}

is_sound : Sequence → Bool
unfolding shrinks saves fills
is_sound q = is_separator q || ((shrinks q && saves q) && fills q)

all_sound : List Sequence → Bool
unfolding is_sound
all_sound [] = true
all_sound (q ∷ qs) = is_sound q && all_sound qs

-- What a sequence is tested for.
abbrev pub Passes : Sequence → Type 0
Passes q = IsSound q × (fills q ≡ true)

passes_lem : (q : Sequence) → ((shrinks q && saves q) && fills q) ≡ true → Passes q
passes_lem q h =
    let (a, b) = and_lem (shrinks q && saves q) (fills q) h in (and_lem (shrinks q) (saves q) a, b)

All-unless : (b : Bool) (qs : List Sequence) → All Passes qs → All Passes (if b then [] else qs)
All-unless true qs h = tt
All-unless false qs h = h

tried-Passes_lem :
    (nomacro : Bool) (qs : List Sequence) → all_sound qs ≡ true → All Passes (tried nomacro qs)
unfolding all_sound is_sound tried
tried-Passes_lem nomacro [] h = tt
tried-Passes_lem nomacro (q ∷ qs) h =
    let (here, behind) = and_lem (is_sound q) (all_sound qs) h in
    let others = tried-Passes_lem nomacro qs behind in
    elim (Bool-cases (is_separator q)) [
      | inl y ↦ rw y (All-unless nomacro (tried nomacro qs) others)
      | inr f ↦ rw f (passes_lem q (rw (is_sound, f) at here), others)
    ]

all_sound-append :
    (ps qs : List Sequence)
    → all_sound ps ≡ true
    → all_sound qs ≡ true
    → all_sound (ps ++ qs) ≡ true
unfolding all_sound
all_sound-append [] qs g h = h
all_sound-append (p ∷ ps) qs g h =
    let (here, behind) = and_lem (is_sound p) (all_sound ps) g in
    and_intro (is_sound p) (all_sound (ps ++ qs)) here (all_sound-append ps qs behind h)

loads_sound : all_sound loads ≡ true
unfolding is_sound all_sound shrinks vars fixed_found fixed_written remove spare scan itoh itoh_from
    saves template_size template_end all_written all_in_symbol fills ends_line loads
loads_sound = refl

chains_sound : all_sound chains ≡ true
unfolding is_sound all_sound shrinks vars fixed_found fixed_written remove spare scan itoh itoh_from
    saves template_size template_end all_written all_in_symbol fills ends_line chains
chains_sound = refl

entries_sound : all_sound entries ≡ true
unfolding is_sound all_sound shrinks vars fixed_found fixed_written remove spare scan itoh itoh_from
    saves template_size template_end all_written all_in_symbol fills ends_line entries
entries_sound = refl

arrays_sound : all_sound arrays ≡ true
unfolding is_sound all_sound shrinks vars fixed_found fixed_written remove spare scan itoh itoh_from
    saves template_size template_end all_written all_in_symbol fills ends_line arrays
arrays_sound = refl

moves_sound : all_sound moves ≡ true
unfolding is_sound all_sound shrinks vars fixed_found fixed_written remove spare scan itoh itoh_from
    saves template_size template_end all_written all_in_symbol fills ends_line moves
moves_sound = refl

pushes_sound : all_sound pushes ≡ true
unfolding is_sound all_sound shrinks vars fixed_found fixed_written remove spare scan itoh itoh_from
    saves template_size template_end all_written all_in_symbol fills ends_line pushes
pushes_sound = refl

constants_sound : all_sound constants ≡ true
unfolding is_sound all_sound shrinks vars fixed_found fixed_written remove spare scan itoh itoh_from
    saves template_size template_end all_written all_in_symbol fills ends_line constants
constants_sound = refl

jumps_sound : all_sound jumps ≡ true
unfolding is_sound all_sound shrinks vars fixed_found fixed_written remove spare scan itoh itoh_from
    saves template_size template_end all_written all_in_symbol fills ends_line jumps
jumps_sound = refl

counting_sound : all_sound counting ≡ true
unfolding is_sound all_sound shrinks vars fixed_found fixed_written remove spare scan itoh itoh_from
    saves template_size template_end all_written all_in_symbol fills ends_line counting
counting_sound = refl

natives_sound : all_sound natives ≡ true
unfolding is_sound all_sound shrinks vars fixed_found fixed_written remove spare scan itoh itoh_from
    saves template_size template_end all_written all_in_symbol fills ends_line natives
natives_sound = refl

macros_sound : all_sound macros ≡ true
unfolding is_sound all_sound shrinks vars fixed_found fixed_written remove spare scan itoh itoh_from
    saves template_size template_end all_written all_in_symbol fills ends_line macros
macros_sound = refl

pub tried-Passes : (nomacro : Bool) → All Passes (tried nomacro sequences)
unfolding sequences
tried-Passes nomacro = tried-Passes_lem nomacro sequences (
    all_sound-append loads
      (chains
        ++ (entries
            ++ (arrays
                ++ (moves
                    ++ (pushes ++ (constants ++ (jumps ++ (counting ++ (natives ++ (macros))))))))))
      loads_sound
      (all_sound-append chains
        (entries
          ++ (arrays
              ++ (moves
                  ++ (pushes ++ (constants ++ (jumps ++ (counting ++ (natives ++ (macros)))))))))
        chains_sound
        (all_sound-append entries
          (arrays
            ++ (moves ++ (pushes ++ (constants ++ (jumps ++ (counting ++ (natives ++ (macros))))))))
          entries_sound
          (all_sound-append arrays
            (moves ++ (pushes ++ (constants ++ (jumps ++ (counting ++ (natives ++ (macros)))))))
            arrays_sound
            (all_sound-append moves
              (pushes ++ (constants ++ (jumps ++ (counting ++ (natives ++ (macros)))))) moves_sound
              (all_sound-append pushes (constants ++ (jumps ++ (counting ++ (natives ++ (macros)))))
                pushes_sound
                (all_sound-append constants (jumps ++ (counting ++ (natives ++ (macros))))
                  constants_sound
                  (all_sound-append jumps (counting ++ (natives ++ (macros))) jumps_sound (
                    all_sound-append counting (natives ++ (macros)) counting_sound
                      (all_sound-append natives (macros) natives_sound (macros_sound)))))))))))

pub tried-IsSound : (nomacro : Bool) → All IsSound (tried nomacro sequences)
tried-IsSound nomacro =
    All-map Passes IsSound (λ q p. p.0) (tried nomacro sequences) (tried-Passes nomacro)

-- The sequence at an index among those that are tried.
Passes-get_elem :
    (qs : List Sequence) (i : ℕ) (q : Sequence) → All Passes qs → get_elem? qs i ≡ some q → Passes q
Passes-get_elem [] i q h e = absurd (cc e)
Passes-get_elem (p ∷ qs) zero q (h, hs) e = subst Passes (some-injective p q e) h
Passes-get_elem (p ∷ qs) (suc i) q (h, hs) e = Passes-get_elem qs i q hs e

-- A match of any sequence that is tried is replaced by exactly `repl_length` bytes, which is less than
-- `match_length`; the new text is the replacement and what was behind the match, and its code is
-- smaller by `savesize`.
pub tried-replaced :
    (nomacro : Bool) (i : ℕ) (q : Sequence) (text rest : List ℕ) (s : Symbols)
    → get_elem? (tried nomacro sequences) i ≡ some q
    → matchsequence text q.find ≡ some (rest, s)
    → (length (replacesequence q.replace s) ≡ repl_length (scan false plain (codes q.replace)) s)
      × ((length (replacesequence q.replace s) < length text - length rest)
          × ((replaced text q rest s ≡ replacesequence q.replace s ++ rest)
              × (text_size gap text ≡ q.savesize + text_size gap (replaced text q rest s))))
tried-replaced nomacro i q text rest s e m =
    let ((h, v), f) = Passes-get_elem (tried nomacro sequences) i q (tried-Passes nomacro) e in
    let (same, (size, closed)) = replaced_lem q text rest s h v m in
    (length-replacesequence q s f, (omega (arith, shrinks_lem q text rest s h m), (same, size)))
