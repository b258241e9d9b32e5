-- ===== src/Peephole/Match.antt =====
-- How much of the text a match takes (`matchsequence` of sc7.c).
use mathlib.Core.Path.{subst}
use mathlib.Core.Option.{some-injective}
use pawn_x.Prelude.{
  ℕ, ◌+◌, ◌≤◌, ◌≡◌, ◌≢◌, ◌⊎◌, inl, inr, refl, ap, sym, ◌∙◌, arith, Bool, true, ◌||◌, ◌==◌, List, [],
  ◌∷◌, Option, none, some, length, Bool-cases, Option-cases, ℕ_discrete,
}
use pawn_x.Prelude.Chars.{alphanum, to_lower}
use pawn_x.Peephole.{
  Item, symbol, negative, blank, line, char, Symbols, bind, skip_blanks, skip_line, skip_comment,
  take_symbol, in_symbol, same_text, bind_symbol, match_text, match_end, match_item, match_items,
  is_blank, with_symbols,
}

-- At least so many bytes of the text an item takes.
abbrev pub least : Item → Symbols → ℕ
least (symbol k) s = length (s k)
least (negative ds) s = 0
least blank s = 1
least (line more) s = 2
least (char c) s = 1

abbrev pub weight : List Item → Symbols → ℕ
weight [] s = 0
weight (i ∷ is) s = least i s + weight is s

pub skip_blanks-le : (t : List ℕ) → length (skip_blanks t) ≤ length t
unfolding skip_blanks
skip_blanks-le [] = omega arith
skip_blanks-le (c ∷ t) = ground (arith, skip_blanks-le t)

skip_line-le : (t : List ℕ) → length (skip_line t) ≤ length t
unfolding skip_line
skip_line-le [] = omega arith
skip_line-le (c ∷ t) = ground (arith, skip_line-le t)

skip_comment-le : (t : List ℕ) → length (skip_comment t) ≤ length t
unfolding skip_comment
skip_comment-le [] = omega arith
skip_comment-le (c ∷ t) = ground (arith, skip_line-le t)

length-take_symbol : (t : List ℕ) → length (take_symbol t).0 + length (take_symbol t).1 ≡ length t
unfolding take_symbol
length-take_symbol [] = refl
length-take_symbol (c ∷ t) = ground (arith, length-take_symbol t)

match_text-le : (ds t t' : List ℕ) → match_text ds t ≡ some t' → length t' ≤ length t
unfolding match_text
match_text-le [] t t' e = let e' : t ≡ t' = cc e in omega (arith, ap length e')
match_text-le (d ∷ ds) [] t' e = absurd (cc e)
match_text-le (d ∷ ds) (c ∷ t) t' e = ground (arith, match_text-le ds t t')

match_end-le : (more : Bool) (t t' : List ℕ) → match_end more t ≡ some t' → length t' + 2 ≤ length t
unfolding match_end
match_end-le more [] t' e = absurd (cc e)
match_end-le more (c ∷ []) t' e = absurd (cc e)
match_end-le more (c ∷ z ∷ t) t' e = ground (arith, skip_blanks-le t)

-- A symbol that is bound stays as it is.
abbrev pub Extends : Symbols → Symbols → Type 0
Extends s s' = (k : ℕ) → (s k ≡ []) ⊎ (s' k ≡ s k)

-- What an item does that matches: the symbols grow, its own is bound, and the text shrinks.
pub record Takes (i : Item) (t : List ℕ) (s : Symbols) (t' : List ℕ) (s' : Symbols) : Type 0 where
  pub extends : Extends s s'
  pub bound : (k : ℕ) → i ≡ symbol k → 1 ≤ length (s' k)
  pub shorter : length t' + least i s' ≤ length t

Extends-same : (s : Symbols) → Extends s s
Extends-same s k = inr refl

same_text_lem : (a b : List ℕ) → same_text a b ≡ true → a ≡ b
unfolding same_text
same_text_lem [] [] e = refl
same_text_lem [] (d ∷ b) e = absurd (cc e)
same_text_lem (c ∷ a) [] e = absurd (cc e)
same_text_lem (c ∷ a) (d ∷ b) e = ground (arith, same_text_lem a b)

pub nil-or-some : (a : List ℕ) → (a ≡ []) ⊎ ((c : ℕ) × ((b : List ℕ) × (a ≡ c ∷ b)))
nil-or-some [] = inl refl
nil-or-some (c ∷ b) = inr (c, (b, refl))

bind-Takes :
    (k : ℕ) (str rest t : List ℕ) (s : Symbols)
    → 1 ≤ length str
    → length str + length rest ≡ length t
    → s k ≡ []
    → Takes (symbol k) t s rest (bind s k str)
bind-Takes k str rest t s h l n =
    let here : bind s k str k ≡ str = ground arith in
    record {
      extends =
          λ j. elim (ℕ_discrete j k) [ yes q ↦ inl (ap s q ∙ n) | no ne ↦ inr (ground arith) ];
      bound = λ j q. let q' : k ≡ j = cc q in rw (← q') (omega (arith, ap length here, h));
      shorter = omega (arith, ap length here, l);
    }

bind_symbol-Takes :
    (k : ℕ) (str rest t : List ℕ) (s : Symbols) (t' : List ℕ) (s' : Symbols)
    → 1 ≤ length str
    → length str + length rest ≡ length t
    → bind_symbol k (str, rest) s ≡ some (t', s')
    → Takes (symbol k) t s t' s'
unfolding bind_symbol
bind_symbol-Takes k str rest t s t' s' h l e = elim (nil-or-some (s k)) [
  | inl n ↦
      let e' = some-injective (rest, bind s k str) (t', s') (rw (bind_symbol, n) at e) in
      subst (λ (p : List ℕ × Symbols). Takes (symbol k) t s p.0 p.1) e'
        (bind-Takes k str rest t s h l n)
  | inr (c, (b, n)) ↦ elim (Bool-cases (same_text (c ∷ b) str)) [
    | inl y ↦
        let e' = some-injective (rest, s) (t', s') (rw (bind_symbol, n, y) at e) in
        let same : length (s k) ≡ length str = ap length (n ∙ same_text_lem (c ∷ b) str y) in
        subst (λ (p : List ℕ × Symbols). Takes (symbol k) t s p.0 p.1) e'
          (record {
            extends = Extends-same s;
            bound = λ j q. let q' : k ≡ j = cc q in rw (← q') (omega (arith, same, h));
            shorter = omega (arith, same, l);
          })
    | inr f ↦ absurd (cc (rw (bind_symbol, n, f) at e))
  ]
]

pub with_symbols_lem :
    (s : Symbols) (o : Option (List ℕ)) (t' : List ℕ) (s' : Symbols)
    → with_symbols s o ≡ some (t', s')
    → (o ≡ some t') × (s ≡ s')
with_symbols_lem s none t' s' e = absurd (cc e)
with_symbols_lem s (some t) t' s' e =
    let p = some-injective (t, s) (t', s') e in
    (ap (λ (q : List ℕ × Symbols). some q.0) p, ap (λ (q : List ℕ × Symbols). q.1) p)

-- An item that is no symbol leaves the symbols alone.
other-Takes :
    (i : Item) (t : List ℕ) (s : Symbols) (t' : List ℕ) (s' : Symbols)
    → ((k : ℕ) → i ≢ symbol k)
    → s ≡ s'
    → length t' + least i s ≤ length t
    → Takes i t s t' s'
other-Takes i t s t' s' no_symbol e l =
    subst (λ s₁. Takes i t s t' s₁) e
      (record { extends = Extends-same s; bound = λ k q. absurd (no_symbol k q); shorter = l })

take_symbol-le : (c : ℕ) (t : List ℕ) → in_symbol c ≡ true → 1 ≤ length (take_symbol (c ∷ t)).0
unfolding take_symbol
take_symbol-le c t h = rw h (omega arith)

pub match_item-Takes :
    (i : Item) (t : List ℕ) (s : Symbols) (t' : List ℕ) (s' : Symbols)
    → match_item i t s ≡ some (t', s')
    → Takes i t s t' s'
unfolding match_item
match_item-Takes i [] s t' s' e = absurd (cc e)
match_item-Takes (symbol k) (c ∷ t) s t' s' e = elim (Bool-cases ((c == b'-') || alphanum c)) [
  | inl y ↦
      bind_symbol-Takes k (take_symbol (c ∷ t)).0 (take_symbol (c ∷ t)).1 (c ∷ t) s t' s'
        (take_symbol-le c t (ground arith)) (length-take_symbol (c ∷ t)) (rw (match_item, y) at e)
  | inr f ↦ absurd (cc (rw (match_item, f) at e))
]
match_item-Takes (negative ds) (c ∷ t) s t' s' e =
    let (m, same) = with_symbols_lem s (match_text ds (c ∷ t)) t' s' e in
    other-Takes (negative ds) (c ∷ t) s t' s' (λ k q. cc q) same
      (omega (arith, match_text-le ds (c ∷ t) t' m))
match_item-Takes blank (c ∷ t) s t' s' e = elim (Bool-cases (is_blank c)) [
  | inl y ↦
      let p = some-injective (skip_blanks t, s) (t', s') (rw (match_item, y) at e) in
      other-Takes blank (c ∷ t) s t' s' (λ k q. cc q) (ap (λ (q : List ℕ × Symbols). q.1) p)
        (omega (arith, skip_blanks-le t, ap (λ (q : List ℕ × Symbols). length q.0) p))
  | inr f ↦ absurd (cc (rw (match_item, f) at e))
]
match_item-Takes (line more) (c ∷ t) s t' s' e =
    let (m, same) =
      with_symbols_lem s (match_end more (skip_comment (skip_blanks (c ∷ t)))) t' s' e in
    other-Takes (line more) (c ∷ t) s t' s' (λ k q. cc q) same
      (omega (
        arith,
        match_end-le more (skip_comment (skip_blanks (c ∷ t))) t' m,
        skip_comment-le (skip_blanks (c ∷ t)),
        skip_blanks-le (c ∷ t),
      ))
match_item-Takes (char d) (c ∷ t) s t' s' e = elim (Bool-cases (to_lower c == to_lower d)) [
  | inl y ↦
      let p = some-injective (t, s) (t', s') (rw (match_item, y) at e) in
      other-Takes (char d) (c ∷ t) s t' s' (λ k q. cc q) (ap (λ (q : List ℕ × Symbols). q.1) p)
        (omega (arith, ap (λ (q : List ℕ × Symbols). length q.0) p))
  | inr f ↦ absurd (cc (rw (match_item, f) at e))
]

-- Whether a symbol stands among the items.
abbrev pub Stands : ℕ → List Item → Type 0
Stands k [] = ⊥
Stands k (i ∷ is) = (i ≡ symbol k) ⊎ Stands k is

-- What a match of items takes: no less than their weight with the symbols that it bound.
pub record TakesAll (is : List Item) (t : List ℕ) (s : Symbols) (t' : List ℕ) (s' : Symbols)
    : Type 0 where
  pub extends : Extends s s'
  pub bound : (k : ℕ) → Stands k is → 1 ≤ length (s' k)
  pub shorter : length t' + weight is s' ≤ length t

Extends-length : {s s' : Symbols} → Extends s s' → (k : ℕ) → 1 ≤ length (s k) → s' k ≡ s k
Extends-length {s} {s'} x k h = elim (x k) [
  | inl n ↦ absurd (omega (arith, ap length n, h))
  | inr e ↦ e
]

least-Extends :
    (i : Item) {s s' : Symbols}
    → Extends s s'
    → ((k : ℕ) → i ≡ symbol k → 1 ≤ length (s k))
    → least i s' ≡ least i s
least-Extends (symbol k) x b = ap length (Extends-length x k (b k refl))
least-Extends (negative ds) x b = refl
least-Extends blank x b = refl
least-Extends (line more) x b = refl
least-Extends (char c) x b = refl

pub match_items-TakesAll :
    (is : List Item) (t : List ℕ) (s : Symbols) (t' : List ℕ) (s' : Symbols)
    → match_items is t s ≡ some (t', s')
    → TakesAll is t s t' s'
unfolding match_items
match_items-TakesAll [] t s t' s' e =
    subst (λ (p : List ℕ × Symbols). TakesAll [] t s p.0 p.1) (some-injective (t, s) (t', s') e)
      (record { extends = Extends-same s; bound = λ k h. absurd h; shorter = omega arith })
match_items-TakesAll (i ∷ is) t s t' s' e = elim (Option-cases (match_item i t s)) [
  | inl n ↦ absurd (cc (rw (match_items, n) at e))
  | inr ((t₁, s₁), m) ↦
      let a = match_item-Takes i t s t₁ s₁ m in
      let b = match_items-TakesAll is t₁ s₁ t' s' (rw (match_items, m) at e) in
      record {
        extends = λ k. elim (a.extends k) [
          | inl n ↦ inl n
          | inr q ↦ elim (b.extends k) [ inl n ↦ inl (sym q ∙ n) | inr q' ↦ inr (q' ∙ q) ]
        ];
        bound = λ k. elim [
          | inl q ↦
              let w = a.bound k q in omega (arith, ap length (Extends-length b.extends k w), w)
          | inr h ↦ b.bound k h
        ];
        shorter = omega (arith, a.shorter, b.shorter, least-Extends i b.extends a.bound);
      }
]
