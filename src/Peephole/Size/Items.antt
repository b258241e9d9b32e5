-- ===== src/Peephole/Size/Items.antt =====
-- The size of the text that the items of a template match (`matchsequence` of sc7.c).
use mathlib.Core.Path.{subst}
use mathlib.Core.Option.{some-injective}
use pawn_x.Prelude.{
  ℕ, ◌≡◌, ◌⊎◌, inl, inr, refl, ap, sym, ◌∙◌, arith, true, ◌||◌, ◌==◌, List, [], ◌∷◌, some,
  Bool-cases, Option-cases,
}
use pawn_x.Prelude.Chars.{alphanum, to_lower}
use pawn_x.Peephole.{
  Item, symbol, negative, blank, line, char, Symbols, bind, skip_blanks, skip_comment, take_symbol,
  in_symbol, same_text, bind_symbol, match_text, match_end, match_item, match_items, is_blank,
}
use pawn_x.Peephole.Match.{nil-or-some, with_symbols_lem}
use pawn_x.Peephole.Size.{
  Place, gap, in_word, in_gap, place, entered, item_place, template_size, template_end,
  all_in_symbol, is_word, is_written, all_written,
}
use pawn_x.Peephole.Size.Found.{
  Reads, Reads-same, Reads-skip, Reads-stay, Reads-to, Reads-then, Reads-blank, Reads-quiet,
  skip_blanks-Reads, skip_comment-Reads, symbol-Reads, same_place, in_symbol-place, in_word_idem,
  in_gap_idem, entered-in_gap, entered-same, entered-gap,
}

abbrev pub AreWords : Symbols → Type 0
AreWords s = (k : ℕ) → all_in_symbol (s k) ≡ true

-- Of the symbols, either none is changed or one is bound.
pub bind_symbol_lem :
    (k : ℕ) (str rest : List ℕ) (s : Symbols) (t' : List ℕ) (s' : Symbols)
    → bind_symbol k (str, rest) s ≡ some (t', s')
    → (rest ≡ t') × ((s ≡ s') ⊎ (bind s k str ≡ s'))
unfolding bind_symbol
bind_symbol_lem k str rest s t' s' e = elim (nil-or-some (s k)) [
  | inl n ↦
      let e' = some-injective (rest, bind s k str) (t', s') (rw (bind_symbol, n) at e) in
      (ap (λ (p : List ℕ × Symbols). p.0) e', inr (ap (λ (p : List ℕ × Symbols). p.1) e'))
  | inr (c, (b, n)) ↦ elim (Bool-cases (same_text (c ∷ b) str)) [
    | inl y ↦
        let e' = some-injective (rest, s) (t', s') (rw (bind_symbol, n, y) at e) in
        (ap (λ (p : List ℕ × Symbols). p.0) e', inl (ap (λ (p : List ℕ × Symbols). p.1) e'))
    | inr f ↦ absurd (cc (rw (bind_symbol, n, f) at e))
  ]
]

take_symbol-all_in_symbol : (t : List ℕ) → all_in_symbol (take_symbol t).0 ≡ true
unfolding take_symbol all_in_symbol
take_symbol-all_in_symbol [] = refl
take_symbol-all_in_symbol (c ∷ t) = elim (Bool-cases (in_symbol c)) [
  | inl y ↦ rw y (rw (y, take_symbol-all_in_symbol t))
  | inr f ↦ rw f refl
]

bind-AreWords :
    (s : Symbols) (k : ℕ) (str : List ℕ)
    → AreWords s
    → all_in_symbol str ≡ true
    → AreWords (bind s k str)
bind-AreWords s k str w h j = elim (Bool-cases (j == k)) [ inl y ↦ rw y h | inr f ↦ rw f (w j) ]

match_text-Reads :
    (p : Place) (ds t t' : List ℕ)
    → in_word p ≡ p
    → all_in_symbol ds ≡ true
    → match_text ds t ≡ some t'
    → Reads p t 0 p t'
unfolding match_text all_in_symbol
match_text-Reads p [] t t' g w e = subst (Reads p t 0 p) (some-injective t t' e) (Reads-same p t)
match_text-Reads p (d ∷ ds) [] t' g w e = absurd (cc e)
match_text-Reads p (d ∷ ds) (c ∷ t) t' g w e = elim (Bool-cases (to_lower c == to_lower d)) [
  | inl y ↦
      let digit : in_symbol d ≡ true = ground arith in
      let digits : all_in_symbol ds ≡ true = ground arith in
      let here = same_place p c d y ∙ in_symbol-place p d digit ∙ g in
      Reads-skip (Reads-quiet p p c t here (entered-same p))
        (match_text-Reads p ds t t' g digits (rw (match_text, y) at e))
  | inr f ↦ absurd (cc (rw (match_text, f) at e))
]

number-Reads :
    (p : Place) (ds : List ℕ) (c : ℕ) (t t' : List ℕ)
    → is_word ds ≡ true
    → match_text ds (c ∷ t) ≡ some t'
    → Reads p (c ∷ t) (entered p (in_word p)) (in_word p) t'
unfolding match_text
number-Reads p [] c t t' w e = absurd (cc w)
number-Reads p (d ∷ ds) c t t' w e = elim (Bool-cases (to_lower c == to_lower d)) [
  | inl y ↦
      let digit : in_symbol d ≡ true = ground arith in
      let digits : all_in_symbol ds ≡ true = ground arith in
      let here = same_place p c d y ∙ in_symbol-place p d digit in
      Reads-stay (Reads-to p (in_word p) c t here)
        (match_text-Reads (in_word p) ds t t' (in_word_idem p) digits (rw (match_text, y) at e))
  | inr f ↦ absurd (cc (rw (match_text, f) at e))
]

-- The end of a line starts in some place.
trailing-Reads : (p : Place) (t : List ℕ) → (q : Place) × Reads p t 0 q (skip_blanks t)
unfolding skip_blanks
trailing-Reads p [] = (p, Reads-same p [])
trailing-Reads p (c ∷ t) = elim (Bool-cases (is_blank c)) [
  | inl y ↦
      rw y (
        in_gap p,
        Reads-skip (Reads-blank p c t y) (skip_blanks-Reads (in_gap p) t (in_gap_idem p)),
      )
  | inr f ↦ rw f (p, Reads-same p (c ∷ t))
]

-- What an item reads that matches: itself, and its symbols stay words.
pub match_item-Reads :
    (p : Place) (i : Item) (t : List ℕ) (s : Symbols) (t' : List ℕ) (s' : Symbols)
    → is_written i ≡ true
    → AreWords s
    → match_item i t s ≡ some (t', s')
    → Reads p t (entered p (item_place p i)) (item_place p i) t' × AreWords s'
unfolding match_item
match_item-Reads p i [] s t' s' d w e = absurd (cc e)
match_item-Reads p (symbol k) (c ∷ t) s t' s' d w e =
    elim (Bool-cases ((c == b'-') || alphanum c)) [
      | inl y ↦
          let begins : in_symbol c ≡ true = ground arith in
          let (str, rest) = take_symbol (c ∷ t) in
          let (same, bound) = bind_symbol_lem k str rest s t' s' (rw (match_item, y) at e) in
          (
            subst (Reads p (c ∷ t) (entered p (in_word p)) (in_word p)) same
                (symbol-Reads p c t begins),
            elim bound [
              | inl q ↦ subst AreWords q w
              | inr q ↦
                  subst AreWords q (bind-AreWords s k str w (take_symbol-all_in_symbol (c ∷ t)))
            ],
          )
      | inr f ↦ absurd (cc (rw (match_item, f) at e))
    ]
match_item-Reads p (negative ds) (c ∷ t) s t' s' d w e =
    let (m, same) = with_symbols_lem s (match_text ds (c ∷ t)) t' s' e in
    (number-Reads p ds c t t' d m, subst AreWords same w)
match_item-Reads p blank (c ∷ t) s t' s' d w e = elim (Bool-cases (is_blank c)) [
  | inl y ↦
      let q = some-injective (skip_blanks t, s) (t', s') (rw (match_item, y) at e) in
      let reads =
        Reads-skip (Reads-blank p c t y) (skip_blanks-Reads (in_gap p) t (in_gap_idem p)) in
      let reads' : Reads p (c ∷ t) (entered p (in_gap p)) (in_gap p) (skip_blanks t) =
        subst (λ n. Reads p (c ∷ t) n (in_gap p) (skip_blanks t)) (sym (entered-in_gap p)) reads in
      subst
        (λ (r : List ℕ × Symbols).
          Reads p (c ∷ t) (entered p (in_gap p)) (in_gap p) r.0 × AreWords r.1)
        q (reads', w)
  | inr f ↦ absurd (cc (rw (match_item, f) at e))
]
match_item-Reads p (line more) (c ∷ t) s t' s' d w e =
    let (m, same) =
      with_symbols_lem s (match_end more (skip_comment (skip_blanks (c ∷ t)))) t' s' e in
    let (q, blanks) = trailing-Reads p (c ∷ t) in
    let reads = Reads-skip blanks (skip_comment-Reads more q (skip_blanks (c ∷ t)) t' m) in
    (subst (λ n. Reads p (c ∷ t) n gap t') (sym (entered-gap p)) reads, subst AreWords same w)
match_item-Reads p (char x) (c ∷ t) s t' s' d w e = elim (Bool-cases (to_lower c == to_lower x)) [
  | inl y ↦
      let q = some-injective (t, s) (t', s') (rw (match_item, y) at e) in
      subst
        (λ (r : List ℕ × Symbols).
          Reads p (c ∷ t) (entered p (place p x)) (place p x) r.0 × AreWords r.1)
        q (Reads-to p (place p x) c t (same_place p c x y), w)
  | inr f ↦ absurd (cc (rw (match_item, f) at e))
]

pub match_items-Reads :
    (p : Place) (is : List Item) (t : List ℕ) (s : Symbols) (t' : List ℕ) (s' : Symbols)
    → all_written is ≡ true
    → AreWords s
    → match_items is t s ≡ some (t', s')
    → Reads p t (template_size p is) (template_end p is) t' × AreWords s'
unfolding match_items template_size template_end all_written
match_items-Reads p [] t s t' s' d w e =
    subst (λ (r : List ℕ × Symbols). Reads p t 0 p r.0 × AreWords r.1)
      (some-injective (t, s) (t', s') e) (Reads-same p t, w)
match_items-Reads p (i ∷ is) t s t' s' d w e = elim (Option-cases (match_item i t s)) [
  | inl n ↦ absurd (cc (rw (match_items, n) at e))
  | inr ((t₁, s₁), m) ↦
      let (first, w₁) = match_item-Reads p i t s t₁ s₁ (ground arith) w m in
      let (others, w') =
        match_items-Reads (item_place p i) is t₁ s₁ t' s' (ground arith) w₁
          (rw (match_items, m) at e) in
      (Reads-then first others, w')
]
