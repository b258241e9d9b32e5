-- ===== src/Utf8/Roundtrip.antt =====
-- `amx_UTF8Get` on what `amx_UTF8Put` stores (amx.c).
use pawn_x.Prelude.{
  ℕ, suc, ◌+◌, ◌-◌, ◌*◌, ◌/◌, ◌%◌, ◌^◌, ◌≤◌, ◌<◌, ◌≡◌, refl, ap, ◌∙◌, arith, true, false, ◌&&◌,
  ◌||◌, ltb, leb, List, [], ◌∷◌, ◌++◌, some, get_or, dec_lt,
}
use pawn_x.Utf8.{utf8_count, utf8_lowmark, is_reserved, collect, verify, utf8_get, tail, utf8_put}

-- What `amx_UTF8Put` stores where there is room.
abbrev pub ReadsBack : ℕ → Type 0
ReadsBack v =
    (bytes : List ℕ) × (utf8_put 6 v ≡ some bytes)
    × ((rest : List ℕ) → utf8_get (bytes ++ rest) ≡ some (v, rest))

put1 : (v : ℕ) → v < 128 → ReadsBack v
unfolding utf8_put utf8_get
put1 v h = (v ∷ [], ground arith, λ rest. ground arith)

put2 : (v : ℕ) → 128 ≤ v → v < 2048 → is_reserved v ≡ false → ReadsBack v
unfolding utf8_put utf8_get verify collect
put2 v l h ok = ((v / 64 % 32 + 192) ∷ tail v 0 ∷ [], ground arith, λ rest. ground arith)

put3 : (v : ℕ) → 2048 ≤ v → v < 65536 → is_reserved v ≡ false → ReadsBack v
unfolding utf8_put utf8_get verify collect
put3 v l h ok =
    ((v / 4096 % 16 + 224) ∷ tail v 6 ∷ tail v 0 ∷ [], ground arith, λ rest. ground arith)

-- The longer ones, byte by byte.
collect_step :
    (n v k u : ℕ) (bs : List ℕ)
    → u * 64 + v / 2 ^ k % 64 ≡ v / 2 ^ k
    → collect (suc n) (tail v k ∷ bs) u ≡ collect n bs (v / 2 ^ k)
unfolding collect
collect_step n v k u bs e =
    let inside : (leb 128 (tail v k) && ltb (tail v k) 192) ≡ true = ground arith in
    let bits : u * 64 + tail v k % 64 ≡ v / 2 ^ k = omega (arith, e) in rw (inside, bits) refl

collect_end : (v : ℕ) (bs : List ℕ) → collect 0 bs (v / 2 ^ 0) ≡ some (v, bs)
unfolding collect
collect_end v bs = ap (λ w. some (w, bs)) (omega arith)

lead_lem :
    (c f : ℕ) (bs : List ℕ)
    → 192 ≤ c
    → c < 254
    → get_or utf8_count (c / 4 % 16) 0 ≡ f
    → utf8_get (c ∷ bs) ≡ verify (get_or utf8_lowmark f 0) (collect (f + 1) bs (c % 2 ^ (5 - f)))
unfolding utf8_get
lead_lem c f bs l h e =
    let long : ltb c 128 ≡ false = ground arith in
    let inside : (ltb c 192 || leb 254 c) ≡ false = ground arith in rw (long, inside, e) refl

verify_lem :
    (m v : ℕ) (bs : List ℕ) → m ≤ v → is_reserved v ≡ false → verify m (some (v, bs)) ≡ some (v, bs)
unfolding verify
verify_lem m v bs h ok = ground arith

put4 : (v : ℕ) → 65536 ≤ v → v < 2097152 → is_reserved v ≡ false → ReadsBack v
unfolding utf8_put
put4 v l h ok = (
  (v / 262144 % 8 + 240) ∷ tail v 12 ∷ tail v 6 ∷ tail v 0 ∷ [],
  ground arith,
  λ rest.
      let c = (v / 262144 % 8 + 240) in
      let e : c % 8 ≡ v / 262144 = omega arith in
      lead_lem c 2 _ (omega arith) (omega arith) (ground arith)
      ∙ ap (verify 65536) (
          ap (collect 3 _) e
          ∙ collect_step 2 v 12 _ _ (omega arith)
          ∙ collect_step 1 v 6 _ _ (omega arith)
          ∙ collect_step 0 v 0 _ _ (omega arith)
          ∙ collect_end v rest)
      ∙ verify_lem 65536 v rest l ok,
)

put5 : (v : ℕ) → 2097152 ≤ v → v < 67108864 → is_reserved v ≡ false → ReadsBack v
unfolding utf8_put
put5 v l h ok = (
  (v / 16777216 % 4 + 248) ∷ tail v 18 ∷ tail v 12 ∷ tail v 6 ∷ tail v 0 ∷ [],
  ground arith,
  λ rest.
      let c = (v / 16777216 % 4 + 248) in
      let e : c % 4 ≡ v / 16777216 = omega arith in
      lead_lem c 3 _ (omega arith) (omega arith) (ground arith)
      ∙ ap (verify 2097152) (
          ap (collect 4 _) e
          ∙ collect_step 3 v 18 _ _ (omega arith)
          ∙ collect_step 2 v 12 _ _ (omega arith)
          ∙ collect_step 1 v 6 _ _ (omega arith)
          ∙ collect_step 0 v 0 _ _ (omega arith)
          ∙ collect_end v rest)
      ∙ verify_lem 2097152 v rest l ok,
)

put6 : (v : ℕ) → 67108864 ≤ v → v < 2147483648 → is_reserved v ≡ false → ReadsBack v
unfolding utf8_put
put6 v l h ok = (
  (v / 1073741824 % 2 + 252) ∷ tail v 24 ∷ tail v 18 ∷ tail v 12 ∷ tail v 6 ∷ tail v 0 ∷ [],
  ground arith,
  λ rest.
      let c = (v / 1073741824 % 2 + 252) in
      let e : c % 2 ≡ v / 1073741824 = omega arith in
      lead_lem c 4 _ (omega arith) (omega arith) (ground arith)
      ∙ ap (verify 67108864) (
          ap (collect 5 _) e
          ∙ collect_step 4 v 24 _ _ (omega arith)
          ∙ collect_step 3 v 18 _ _ (omega arith)
          ∙ collect_step 2 v 12 _ _ (omega arith)
          ∙ collect_step 1 v 6 _ _ (omega arith)
          ∙ collect_step 0 v 0 _ _ (omega arith)
          ∙ collect_end v rest)
      ∙ verify_lem 67108864 v rest l ok,
)

-- A character that is no reserved one and has at most 31 bits takes at most six bytes, and
-- `amx_UTF8Get` reads it back from them, whatever comes behind.
pub utf8_get-utf8_put : (v : ℕ) → v < 2 ^ 31 → is_reserved v ≡ false → ReadsBack v
utf8_get-utf8_put v h ok = elim (dec_lt v 128) [
  | yes l ↦ put1 v l
  | no l₁ ↦ elim (dec_lt v 2048) [
    | yes l ↦ put2 v (omega arith) l ok
    | no l₂ ↦ elim (dec_lt v 65536) [
      | yes l ↦ put3 v (omega arith) l ok
      | no l₃ ↦ elim (dec_lt v 2097152) [
        | yes l ↦ put4 v (omega arith) l ok
        | no l₄ ↦ elim (dec_lt v 67108864) [
          | yes l ↦ put5 v (omega arith) l ok
          | no l₅ ↦ put6 v (omega arith) h ok
        ]
      ]
    ]
  ]
]
