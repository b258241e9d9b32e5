-- ===== src/Peephole/Size/Passes.antt =====
-- What the passes of `stgopt` (sc7.c) take from `code_idx`.
use mathlib.Core.Path.{subst}
use mathlib.Core.Option.{some-injective}
use pawn_x.Prelude.{
  ℕ, zero, suc, ◌+◌, ◌≡◌, inl, inr, refl, ap, sym, arith, true, ◌==◌, List, [], ◌∷◌, ◌++◌, some,
  All, Bool-cases, and_lem, and_intro, Option-cases,
}
use pawn_x.Peephole.Table.{Sequence}
use pawn_x.Peephole.Optimise.{Staged, rewrite_start, next_string, behind, optimize_pass, optimize}
use pawn_x.Peephole.Optimise.Settle.{next_string_lem, zero-or-suc}
use pawn_x.Peephole.Size.{Place, gap, place, entered, text_size, is_closed, closes}
use pawn_x.Peephole.Size.Saved.{IsSound, is_gap_lem, rewrite_start_size}

-- A string that is closed counts by itself, whatever is behind it.
record Closed (p : Place) (string : List ℕ) : Type 0 where
  bytes : ℕ
  size : (u : List ℕ) → text_size p (string ++ u) ≡ bytes + text_size gap u
  closed : (u : List ℕ) → is_closed gap u ≡ true → is_closed p (string ++ u) ≡ true

Closed-none : Closed gap []
Closed-none = record { bytes = 0; size = λ u. omega arith; closed = λ u h. h }

Closed-byte :
    (p : Place) (c : ℕ) (string : List ℕ)
    → closes p c ≡ true
    → Closed (place p c) string
    → Closed p (c ∷ string)
unfolding text_size is_closed
Closed-byte p c string z b = record {
  bytes = entered p (place p c) + b.bytes;
  size = λ u. omega (arith, b.size u);
  closed = λ u h. and_intro (closes p c) (is_closed (place p c) (string ++ u)) z (b.closed u h);
}

pub before_zero : (p : Place) (c : ℕ) → p ≡ gap → (c == 0) ≡ true → place p c ≡ gap
before_zero p c e y = subst (λ q. place q c ≡ gap) (sym e) (ground arith)

next_string_size :
    (p : Place) (t : List ℕ)
    → is_closed p t ≡ true
    → Closed p (next_string t).0 × (is_closed gap (next_string t).1 ≡ true)
unfolding next_string is_closed
next_string_size p [] h = (subst (λ q. Closed q []) (sym (is_gap_lem p h)) Closed-none, refl)
next_string_size p (c ∷ t) h =
    let (here, behind) = and_lem (closes p c) (is_closed (place p c) t) h in
    elim (Bool-cases (c == 0)) [
      | inl y ↦
          let before : p ≡ gap = is_gap_lem p (ground arith) in
          let now : place p c ≡ gap = before_zero p c before y in
          let rest = subst (λ q. is_closed q t ≡ true) now behind in
          rw y (Closed-byte p c [] here (subst (λ q. Closed q []) (sym now) Closed-none), rest)
      | inr f ↦
          let (string, rest) = next_string_size (place p c) t behind in
          rw f (Closed-byte p c (next_string t).0 here string, rest)
    ]

-- What is taken from `code_idx` is what the code has become smaller by.
abbrev pub Kept : List ℕ → Staged → Type 0
Kept text r =
    (text_size gap text ≡ r.saved + text_size gap (r.text)) × (is_closed gap (r.text) ≡ true)

-- A pass.
pub optimize_pass_size :
    (qs : List Sequence) (fuel : ℕ) (text : List ℕ) (r : Staged)
    → All IsSound qs
    → is_closed gap text ≡ true
    → optimize_pass qs fuel text ≡ some r
    → Kept text r
unfolding optimize_pass
optimize_pass_size qs zero text r h c e = absurd (cc e)
optimize_pass_size qs (suc fuel) [] r h c e =
    let p = some-injective (record { text = []; matches = 0; saved = 0 }) r e in
    subst (λ (r : Staged). Kept [] r) p (omega arith, c)
optimize_pass_size qs (suc fuel) (b ∷ t) r h c e =
    elim (Option-cases (rewrite_start qs (suc fuel) (b ∷ t))) [
      | inl n ↦ absurd (cc (rw (optimize_pass, n) at e))
      | inr (r₁, m) ↦
          let (string, rest) = next_string (r₁.text) in
          elim (Option-cases (optimize_pass qs fuel rest)) [
            | inl n ↦ absurd (cc (rw (optimize_pass, m, n) at e))
            | inr (r₂, m') ↦
                let first = rewrite_start_size qs (suc fuel) (b ∷ t) r₁ h m in
                let (closed, rest_closed) = next_string_size gap (r₁.text) (first.closed c) in
                let (size, others) = optimize_pass_size qs fuel rest r₂ h rest_closed m' in
                let whole = ap (text_size gap) (next_string_lem (r₁.text)) in
                let p =
                  some-injective
                    (record {
                      text = string ++ r₂.text;
                      matches = r₁.matches + r₂.matches;
                      saved = r₁.saved + r₂.saved;
                    })
                    r (rw (optimize_pass, m, m') at e) in
                subst (λ (r : Staged). Kept (b ∷ t) r) p
                  (
                    omega (arith, first.size, size, whole, closed.size rest, closed.size (r₂.text)),
                    closed.closed (r₂.text) others,
                  )
          ]
    ]

-- All passes.
pub optimize_size :
    (qs : List Sequence) (fuel : ℕ) (text : List ℕ) (r : Staged)
    → All IsSound qs
    → is_closed gap text ≡ true
    → optimize qs fuel text ≡ some r
    → Kept text r
unfolding optimize
optimize_size qs zero text r h c e = absurd (cc e)
optimize_size qs (suc fuel) text r h c e = elim (Option-cases (optimize_pass qs (suc fuel) text)) [
  | inl n ↦ absurd (cc (rw (optimize, n) at e))
  | inr (r₁, m) ↦
      let (size, closed) = optimize_pass_size qs (suc fuel) text r₁ h c m in
      elim (zero-or-suc (r₁.matches)) [
        | inl z ↦
            subst (λ (r : Staged). Kept text r) (some-injective r₁ r (rw (optimize, m, z) at e))
              (size, closed)
        | inr (k, s) ↦ elim (Option-cases (optimize qs fuel (r₁.text))) [
          | inl n ↦ absurd (cc (rw (optimize, m, s, n) at e))
          | inr (r₂, m') ↦
              let (size', closed') = optimize_size qs fuel (r₁.text) r₂ h closed m' in
              let p =
                some-injective
                  (record { text = r₂.text; matches = r₂.matches; saved = r₁.saved + r₂.saved }) r
                  (rw (optimize, m, s, m') at e) in
              subst (λ (r : Staged). Kept text r) p (omega (arith, size, size'), closed')
        ]
      ]
]
