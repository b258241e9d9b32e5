-- ===== src/Peephole/Size/Saved.antt =====
-- What the loop at one string start (`stgopt` of sc7.c) takes from `code_idx`.
use mathlib.Core.Path.{subst}
use mathlib.Core.Option.{some-injective}
use pawn_x.Prelude.{
  ℕ, zero, suc, ◌+◌, ◌-◌, ◌≡◌, inl, inr, refl, ap, sym, ◌∙◌, arith, true, false, ◌&&◌, ◌==◌, List,
  [], ◌∷◌, ◌++◌, some, length, All, and_lem, equal_lem, Option-cases,
}
use pawn_x.Prelude.Chars.{codes}
use pawn_x.Peephole.{
  Item, plain, scan, Symbols, unbound, skip_blanks, matchsequence, replacesequence, strreplace,
  write_items,
}
use pawn_x.Peephole.Table.{Sequence}
use pawn_x.Peephole.Match.{match_items-TakesAll}
use pawn_x.Peephole.Shrink.{shrinks, vars, spare, IsBound, vars-IsBound, spare-All}
use pawn_x.Peephole.Optimise.{Staged, rewrite_first, rewrite_start}
use pawn_x.Peephole.Optimise.Settle.{replaced, rewritten_lem}
use pawn_x.Peephole.Size.{
  Place, gap, word, comment, text_size, template_size, template_end, is_gap, all_written, is_closed,
  saves,
}
use pawn_x.Peephole.Size.Found.{Reads-skip, Reads-to, skip_blanks-Reads}
use pawn_x.Peephole.Size.Items.{match_items-Reads}
use pawn_x.Peephole.Size.Written.{
  write_items-Reads, byte-closed, write_items-closed, strreplace_lem,
}

pub is_gap_lem : (p : Place) → is_gap p ≡ true → p ≡ gap
is_gap_lem gap h = refl
is_gap_lem word h = absurd (cc h)
is_gap_lem comment h = absurd (cc h)

-- What `saves` has tested.
record Saves (found written : List Item) (savesize : ℕ) : Type 0 where
  size : template_size gap found ≡ template_size gap written + savesize
  found_end : template_end gap found ≡ gap
  written_end : template_end gap written ≡ gap
  found_numbers : all_written found ≡ true
  written_numbers : all_written written ≡ true

saves_lem :
    (q : Sequence)
    → saves q ≡ true
    → Saves (scan true plain (codes q.find)) (scan false plain (codes q.replace)) q.savesize
unfolding saves
saves_lem q h =
    let found = scan true plain (codes q.find) in
    let written = scan false plain (codes q.replace) in
    let ends = is_gap (template_end gap found) && is_gap (template_end gap written) in
    let numbers = all_written found && all_written written in
    let size = template_size gap found == template_size gap written + q.savesize in
    let (a, b) = and_lem size (ends && numbers) h in
    let (c, d) = and_lem ends numbers b in
    let (e, f) = and_lem (is_gap (template_end gap found)) (is_gap (template_end gap written)) c in
    let (g, i) = and_lem (all_written found) (all_written written) d in
    record {
      size = equal_lem (template_size gap found) (template_size gap written + q.savesize) a;
      found_end = is_gap_lem (template_end gap found) e;
      written_end = is_gap_lem (template_end gap written) f;
      found_numbers = g;
      written_numbers = i;
    }

-- The symbols of a replacement are bound by the match.
written-IsBound :
    (q : Sequence) (s : Symbols)
    → shrinks q ≡ true
    → All (IsBound s) (vars (scan true plain (codes q.find)))
    → All (IsBound s) (vars (scan false plain (codes q.replace)))
unfolding shrinks
written-IsBound q s h b =
    let found = scan true plain (codes q.find) in
    let written = scan false plain (codes q.replace) in
    elim (Option-cases (spare (vars written) (vars found))) [
      | inl n ↦ absurd (cc (rw (shrinks, n) at h))
      | inr (ws, e) ↦ spare-All (IsBound s) (vars written) (vars found) ws e b
    ]

-- A match is replaced by a text that is smaller by `savesize`.
pub match_size :
    (q : Sequence) (text rest : List ℕ) (s : Symbols)
    → shrinks q ≡ true
    → saves q ≡ true
    → matchsequence text q.find ≡ some (rest, s)
    → (text_size gap text ≡ q.savesize + text_size gap (replacesequence q.replace s ++ rest))
      × (((u : List ℕ) × (text ≡ u ++ rest))
          × (is_closed gap text ≡ true
              → is_closed gap (replacesequence q.replace s ++ rest) ≡ true))
unfolding saves matchsequence replacesequence
match_size q text rest s h v m =
    let found = scan true plain (codes q.find) in
    let written = scan false plain (codes q.replace) in
    let v' = saves_lem q v in
    let taken = match_items-TakesAll found (skip_blanks text) unbound rest s m in
    let bound = written-IsBound q s h (vars-IsBound s found taken.bound) in
    let (reads, words) =
      match_items-Reads gap found (skip_blanks text) unbound rest s v'.found_numbers (λ k. refl)
        m in
    let before = Reads-skip (skip_blanks-Reads gap text refl) reads in
    let writes = write_items-Reads s words gap written rest v'.written_numbers bound in
    let after = Reads-skip (Reads-to gap gap 9 (write_items written s ++ rest) refl) writes in
    let ends = ap (λ p. text_size p rest) v'.found_end in
    let ends' = ap (λ p. text_size p rest) v'.written_end in
    (
      omega (arith, before.size, after.size, ends, ends', v'.size),
      (
        before.suffix,
        λ c.
            let here =
              subst (λ p. is_closed p rest ≡ true) (v'.found_end ∙ sym v'.written_end)
                (before.closed c) in
            byte-closed gap gap 9 (write_items written s ++ rest) refl refl
              (write_items-closed s words gap written rest v'.written_numbers bound here),
      ),
    )

-- The text after a match is applied.
pub replaced_lem :
    (q : Sequence) (text rest : List ℕ) (s : Symbols)
    → shrinks q ≡ true
    → saves q ≡ true
    → matchsequence text q.find ≡ some (rest, s)
    → (replaced text q rest s ≡ replacesequence q.replace s ++ rest)
      × ((text_size gap text ≡ q.savesize + text_size gap (replaced text q rest s))
          × (is_closed gap text ≡ true → is_closed gap (replaced text q rest s) ≡ true))
replaced_lem q text rest s h v m =
    let (size, ((u, e), closed)) = match_size q text rest s h v m in
    let replace = replacesequence q.replace s in
    let same : replaced text q rest s ≡ replace ++ rest =
      subst (λ t. strreplace t replace (length t - length rest) ≡ replace ++ rest) (sym e)
        (strreplace_lem u rest replace) in
    (same, (rw same size, λ c. rw same (closed c)))

abbrev pub IsSound : Sequence → Type 0
IsSound q = (shrinks q ≡ true) × (saves q ≡ true)

-- The text and its size when `save` is taken from `code_idx`.
pub record SavesFrom (text : List ℕ) (save : ℕ) (t : List ℕ) : Type 0 where
  pub size : text_size gap text ≡ save + text_size gap t
  pub closed : is_closed gap text ≡ true → is_closed gap t ≡ true

-- The first sequence that is applied.
pub rewrite_first_size :
    (qs : List Sequence) (text t : List ℕ) (save : ℕ)
    → All IsSound qs
    → rewrite_first qs text ≡ some (t, save)
    → SavesFrom text save t
unfolding rewrite_first
rewrite_first_size [] text t save h e = absurd (cc e)
rewrite_first_size (q ∷ qs) text t save ((h, v), hs) e =
    elim (Option-cases (matchsequence text q.find)) [
      | inl n ↦ rewrite_first_size qs text t save hs (rw (rewrite_first, n) at e)
      | inr ((rest, s), m) ↦
          let (applied, l) = rewritten_lem text q rest s (rewrite_first qs text) h m in
          let p =
            some-injective (replaced text q rest s, q.savesize) (t, save)
              (sym applied ∙ rw (rewrite_first, m) at e) in
          let (same, (size, closed)) = replaced_lem q text rest s h v m in
          subst (λ (r : List ℕ × ℕ). SavesFrom text r.1 r.0) p
            (record { size = size; closed = closed })
    ]

-- The loop at a string start.
pub rewrite_start_size :
    (qs : List Sequence) (fuel : ℕ) (text : List ℕ) (r : Staged)
    → All IsSound qs
    → rewrite_start qs fuel text ≡ some r
    → SavesFrom text (r.saved) (r.text)
unfolding rewrite_start
rewrite_start_size qs zero text r h e = absurd (cc e)
rewrite_start_size qs (suc fuel) text r h e = elim (Option-cases (rewrite_first qs text)) [
  | inl n ↦
      let p =
        some-injective (record { text = text; matches = 0; saved = 0 }) r
          (rw (rewrite_start, n) at e) in
      subst (λ (r : Staged). SavesFrom text r.saved r.text) p
        (record { size = omega arith; closed = λ c. c })
  | inr ((t, save), m) ↦ elim (Option-cases (rewrite_start qs fuel t)) [
    | inl n ↦ absurd (cc (rw (rewrite_start, m, n) at e))
    | inr (r', m') ↦
        let first = rewrite_first_size qs text t save h m in
        let others = rewrite_start_size qs fuel t r' h m' in
        let p =
          some-injective
            (record { text = r'.text; matches = suc (r'.matches); saved = save + r'.saved }) r
            (rw (rewrite_start, m, m') at e) in
        subst (λ (r : Staged). SavesFrom text r.saved r.text) p
          (record {
            size = omega (arith, first.size, others.size);
            closed = λ c. others.closed (first.closed c);
          })
  ]
]
