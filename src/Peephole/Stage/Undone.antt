-- ===== src/Peephole/Stage/Undone.antt =====
-- `stgdel` after `stgget` (compiler/source/compiler/sc7.c).
use mathlib.Core.Path.{subst}
use mathlib.Core.Option.{some-injective}
use pawn_x.Prelude.{
  ℕ, zero, suc, ◌+◌, ◌-◌, ◌≤◌, ◌<◌, ◌≡◌, refl, ap, sym, ◌∙◌, arith, Bool, true, false, ◌&&◌, not,
  ltb, inl, inr, ◌==◌, if◌then◌else◌, List, [], ◌∷◌, ◌++◌, some, length, length-append, length-take,
  take, drop, get_or, Bool-cases, ℕ_discrete,
}
use pawn_x.Peephole.Stage.{
  Stage, copy_to, joins, write_staged, write_through, stgwrite, stgmark, stgget, stgdel, Piece,
  string_piece, mark_piece, code_piece, send_all,
}

pub take-take-append :
    (n i : ℕ) (xs ys : List ℕ) → n ≤ i → i ≤ length xs → take n (take i xs ++ ys) ≡ take n xs
take-take-append zero i xs ys h l = refl
take-take-append (suc n) zero xs ys h l = absurd (omega (arith, h))
take-take-append (suc n) (suc i) [] ys h l = absurd (omega (arith, l))
take-take-append (suc n) (suc i) (x ∷ xs) ys h l =
    ap (λ zs. x ∷ zs) (take-take-append n i xs ys (omega (arith, h)) (omega (arith, l)))

pub get_or-take : (xs : List ℕ) (n i d : ℕ) → i < n → get_or (take n xs) i d ≡ get_or xs i d
get_or-take xs zero i d h = absurd (omega (arith, h))
get_or-take [] (suc n) i d h = refl
get_or-take (x ∷ xs) (suc n) zero d h = refl
get_or-take (x ∷ xs) (suc n) (suc i) d h = get_or-take xs n i d (omega (arith, h))

-- Whether a write joins the last string depends on the text alone.
joins-take : (a b : List ℕ) (n : ℕ) → take n a ≡ take n b → joins a n ≡ joins b n
joins-take a b zero e = refl
joins-take a b (suc zero) e = refl
joins-take a b (suc (suc n)) e =
    let m = suc (suc n) in
    let same : (i : ℕ) → i < m → get_or a i 0 ≡ get_or b i 0 =
      λ i h. sym (get_or-take a m i 0 h) ∙ ap (λ zs. get_or zs i 0) e ∙ get_or-take b m i 0 h in
    ap (λ x. ltb 1 m && ((x == 0) && not (get_or a (m - 2) 0 == 10))) (same (m - 1) (omega arith))
    ∙ ap (λ x. ltb 1 m && ((get_or b (m - 1) 0 == 0) && not (x == 10))) (same (m - 2) (omega arith))

-- The text below `n` is as it was, and what is written is behind it.
record Keeps (buf : List ℕ) (n : ℕ) (s : Stage) : Type 0 where
  text : take n (s.stgbuf) ≡ take n buf
  above : n ≤ s.stgidx
  inside : s.stgidx ≤ length (s.stgbuf)
  on : s.staging ≡ true

pub length-copy_to :
    (i : ℕ) (bytes buf : List ℕ) → i ≤ length buf → i + length bytes ≤ length (copy_to i bytes buf)
length-copy_to i bytes buf h =
    let behind = drop (i + length bytes) buf in
    omega (
      arith,
      length-append (take i buf) (bytes ++ behind),
      length-append bytes behind,
      length-take i buf,
      h,
    )

-- A write at or behind `n` keeps what is below.
Keeps-copy_to :
    (buf : List ℕ) (n i : ℕ) (bytes : List ℕ) (s : Stage) (idx len : ℕ)
    → Keeps buf n s
    → n ≤ i
    → i ≤ length (s.stgbuf)
    → idx ≡ i + length bytes
    → Keeps buf n (record s { stgbuf = copy_to i bytes (s.stgbuf); stgidx = idx; stglen = len })
Keeps-copy_to buf n i bytes s idx len k h l e = record {
  text = take-take-append n i (s.stgbuf) (bytes ++ drop (i + length bytes) (s.stgbuf)) h l ∙ k.text;
  above = omega (arith, h, e);
  inside = omega (arith, e, length-copy_to i bytes (s.stgbuf) l);
  on = k.on;
}

pub if-true : (b : Bool) (x y : Stage) → b ≡ true → (if b then x else y) ≡ x
if-true true x y e = refl
if-true false x y e = absurd (cc e)

stgwrite-Keeps :
    (buf : List ℕ) (n : ℕ) (str : List ℕ) (s : Stage)
    → joins buf n ≡ false
    → Keeps buf n s
    → Keeps buf n (stgwrite str s)
unfolding stgwrite
stgwrite-Keeps buf n str s complete k =
    let i = (if joins (s.stgbuf) (s.stgidx) then s.stgidx - 1 else s.stgidx) in
    let first : n ≤ i = elim (ℕ_discrete (s.stgidx) n) [
      | yes e ↦
          let kept : joins (s.stgbuf) (s.stgidx) ≡ false =
            ap (joins (s.stgbuf)) e ∙ joins-take (s.stgbuf) buf n k.text ∙ complete in
          rw kept k.above
      | no ne ↦ elim (Bool-cases (joins (s.stgbuf) (s.stgidx))) [
        | inl y ↦ rw y (omega (arith, k.above, ne))
        | inr f ↦ rw f k.above
      ]
    ] in
    let inside : i ≤ length (s.stgbuf) = elim (Bool-cases (joins (s.stgbuf) (s.stgidx))) [
      | inl y ↦ rw y (omega (arith, k.inside))
      | inr f ↦ rw f k.inside
    ] in
    let there =
      Keeps-copy_to buf n i (str ++ 0 ∷ []) s (i + length str + 1) (s.stglen + length str) k first
        inside (omega (arith, length-append str (0 ∷ []))) in
    subst (Keeps buf n) (sym (if-true (s.staging) (write_staged str s) (write_through str s) k.on))
      there

stgmark-Keeps :
    (buf : List ℕ) (n mark : ℕ) (s : Stage) → Keeps buf n s → Keeps buf n (stgmark mark s)
unfolding stgmark
stgmark-Keeps buf n mark s k =
    let there =
      Keeps-copy_to buf n (s.stgidx) (mark ∷ []) s (s.stgidx + 1) (s.stglen + 1) k k.above k.inside
        refl in
    subst (Keeps buf n) (sym (if-true (s.staging) _ s k.on)) there

send_all-Keeps :
    (buf : List ℕ) (n : ℕ) (ps : List Piece) (s : Stage)
    → joins buf n ≡ false
    → Keeps buf n s
    → Keeps buf n (send_all ps s)
unfolding send_all
send_all-Keeps buf n [] s c k = k
send_all-Keeps buf n (string_piece str ∷ ps) s c k =
    send_all-Keeps buf n ps (stgwrite str s) c (stgwrite-Keeps buf n str s c k)
send_all-Keeps buf n (mark_piece mark ∷ ps) s c k =
    send_all-Keeps buf n ps (stgmark mark s) c (stgmark-Keeps buf n mark s k)
send_all-Keeps buf n (code_piece size ∷ ps) s c k =
    send_all-Keeps buf n ps (record s { code_idx = s.code_idx + size }) c
      (record { text = k.text; above = k.above; inside = k.inside; on = k.on })

-- What `stgget` gives is enough to take back whatever is sent to the staging buffer afterwards, where
-- the buffer does not end in the middle of a line: `stgdel` brings back its text and `code_idx`.
pub stgdel-stgget :
    (s : Stage) (index code_index : ℕ) (ps : List Piece)
    → stgget s ≡ some (index, code_index)
    → s.stgidx ≤ length (s.stgbuf)
    → joins (s.stgbuf) (s.stgidx) ≡ false
    → (take index ((stgdel index code_index (send_all ps s)).stgbuf) ≡ take (s.stgidx) (s.stgbuf))
      × (((stgdel index code_index (send_all ps s)).stgidx ≡ s.stgidx)
          × ((stgdel index code_index (send_all ps s)).code_idx ≡ s.code_idx))
unfolding stgget stgdel
stgdel-stgget s index code_index ps e h c = elim (Bool-cases (s.staging)) [
  | inr f ↦ absurd (cc (rw (stgget, f) at e))
  | inl y ↦
      let p = some-injective (s.stgidx, s.code_idx) (index, code_index) (rw (stgget, y) at e) in
      let k =
        send_all-Keeps (s.stgbuf) (s.stgidx) ps s c
          (record { text = refl; above = omega arith; inside = h; on = y }) in
      let s' = send_all ps s in
      let done =
        if-true (s'.staging) (record s' { stgidx = index; code_idx = code_index }) s' k.on in
      let index' = ap (λ (q : ℕ × ℕ). q.0) p in
      (
        ap (λ (r : Stage). take index (r.stgbuf)) done
            ∙ ap (λ n. take n (s'.stgbuf)) (sym index')
            ∙ k.text,
        (
          ap (λ (r : Stage). r.stgidx) done ∙ sym index',
          ap (λ (r : Stage). r.code_idx) done ∙ sym (ap (λ (q : ℕ × ℕ). q.1) p),
        ),
      )
]
