-- ===== src/Peephole/Stage/Filled.antt =====
-- The text that `stgwrite` builds up in the staging buffer (compiler/source/compiler/sc7.c), as `stgopt`
-- takes it.
use mathlib.Core.Path.{subst}
use mathlib.Core.List.{append_assoc, append-nil}
use pawn_x.Prelude.{
  ℕ, zero, suc, ◌+◌, ◌-◌, ◌≤◌, ◌<◌, ◌≡◌, refl, ap, sym, ◌∙◌, arith, Bool, true, false, ◌&&◌, not,
  ltb, lt→ltb, inl, inr, ◌==◌, and_lem, and_intro, List, [], ◌∷◌, ◌++◌, All, map, length,
  length-append, length-take, take, take-append, drop, get_or, Bool-cases, ℕ_discrete,
}
use pawn_x.Peephole.Size.{Place, gap, place, closes, is_closed}
use pawn_x.Peephole.Stage.{
  Stage, copy_to, joins, write_staged, write_through, stgwrite, string_piece, send_all,
}
use pawn_x.Peephole.Stage.Undone.{if-true, length-copy_to, get_or-take, take-take-append}

place_from : Place → List ℕ → Place
place_from p [] = p
place_from p (c ∷ t) = place_from (place p c) t

closed_to : Place → List ℕ → Bool
closed_to p [] = true
closed_to p (c ∷ t) = closes p c && closed_to (place p c) t

closed_to-append :
    (p : Place) (u rest : List ℕ)
    → closed_to p u ≡ true
    → closed_to (place_from p u) rest ≡ true
    → closed_to p (u ++ rest) ≡ true
unfolding closed_to place_from
closed_to-append p [] rest h e = e
closed_to-append p (c ∷ u) rest h e =
    let (here, behind) = and_lem (closes p c) (closed_to (place p c) u) h in
    and_intro (closes p c) (closed_to (place p c) (u ++ rest)) here
      (closed_to-append (place p c) u rest behind e)

closed_to-is_closed :
    (p : Place) (u : List ℕ)
    → closed_to p u ≡ true
    → place_from p u ≡ gap
    → is_closed p (u ++ 0 ∷ []) ≡ true
unfolding closed_to place_from is_closed
closed_to-is_closed p [] h e = subst (λ q. is_closed q (0 ∷ []) ≡ true) (sym e) refl
closed_to-is_closed p (c ∷ u) h e =
    let (here, behind) = and_lem (closes p c) (closed_to (place p c) u) h in
    and_intro (closes p c) (is_closed (place p c) (u ++ 0 ∷ [])) here
      (closed_to-is_closed (place p c) u behind e)

-- A string has no zero byte.
unfoldable pub is_string : List ℕ → Bool
is_string [] = true
is_string (c ∷ t) = not (c == 0) && is_string t

is_string-closed_to : (p : Place) (t : List ℕ) → is_string t ≡ true → closed_to p t ≡ true
unfolding is_string closed_to
is_string-closed_to p [] h = refl
is_string-closed_to p (c ∷ t) h =
    let (here, behind) = and_lem (not (c == 0)) (is_string t) h in
    and_intro (closes p c) (closed_to (place p c) t) (ground arith)
      (is_string-closed_to (place p c) t behind)

-- Behind a newline there is a gap.
place_from_newline :
    (p : Place) (u : List ℕ) (n : ℕ)
    → length u ≡ suc n
    → (get_or u n 0 == 10) ≡ true
    → place_from p u ≡ gap
unfolding place_from
place_from_newline p [] n l h = absurd (omega (arith, l))
place_from_newline p (c ∷ []) zero l h = ground arith
place_from_newline p (c ∷ []) (suc n) l h = absurd (omega (arith, l))
place_from_newline p (c ∷ d ∷ u) zero l h = absurd (omega (arith, l))
place_from_newline p (c ∷ d ∷ u) (suc n) l h =
    place_from_newline (place p c) (d ∷ u) n (omega (arith, l)) h

take-copy_to :
    (i idx : ℕ) (bytes buf : List ℕ)
    → i ≤ length buf
    → idx ≡ i + length bytes
    → take idx (copy_to i bytes buf) ≡ take i buf ++ bytes
take-copy_to i idx bytes buf h e =
    let front = take i buf ++ bytes in
    let count : idx ≡ length front =
      omega (arith, e, length-append (take i buf) bytes, length-take i buf, h) in
    ap (λ n. take n (copy_to i bytes buf)) count
    ∙ ap (take (length front)) (sym (append_assoc (take i buf) bytes (drop (i + length bytes) buf)))
    ∙ take-append front (drop (i + length bytes) buf)

get_or-append : (u rest : List ℕ) (i : ℕ) → i < length u → get_or (u ++ rest) i 0 ≡ get_or u i 0
get_or-append [] rest i h = absurd (omega (arith, h))
get_or-append (c ∷ u) rest zero h = refl
get_or-append (c ∷ u) rest (suc i) h = get_or-append u rest i (omega (arith, h))

-- The text is empty, or strings with a zero byte behind the last.
record Strings (s : Stage) (u : List ℕ) : Type 0 where
  text : take (s.stgidx) (s.stgbuf) ≡ u ++ 0 ∷ []
  count : s.stgidx ≡ suc (length u)
  inside : s.stgidx ≤ length (s.stgbuf)
  on : s.staging ≡ true
  closed : closed_to gap u ≡ true

-- A string written behind a part of the buffer.
Strings-copy_to :
    (s : Stage) (i len : ℕ) (w str : List ℕ)
    → take i (s.stgbuf) ≡ w
    → i ≤ length (s.stgbuf)
    → s.staging ≡ true
    → closed_to gap (w ++ str) ≡ true
    → Strings
        (record s {
          stgbuf = copy_to i (str ++ 0 ∷ []) (s.stgbuf);
          stgidx = i + length str + 1;
          stglen = len;
        })
        (w ++ str)
Strings-copy_to s i len w str e h on c =
    let idx : i + length str + 1 ≡ i + length (str ++ 0 ∷ []) =
      omega (arith, length-append str (0 ∷ [])) in
    let before : i ≡ length w = omega (arith, ap length e, length-take i (s.stgbuf), h) in
    record {
      text =
          take-copy_to i (i + length str + 1) (str ++ 0 ∷ []) (s.stgbuf) h idx
          ∙ ap (λ t. t ++ (str ++ 0 ∷ [])) e
          ∙ sym (append_assoc w str (0 ∷ []));
      count = omega (arith, before, length-append w str);
      inside = omega (arith, idx, length-copy_to i (str ++ 0 ∷ []) (s.stgbuf) h);
      on = on;
      closed = c;
    }

newline_lem : (a b c : Bool) → (a && (b && not c)) ≡ false → a ≡ true → b ≡ true → c ≡ true
newline_lem true true true h e f = refl
newline_lem true true false h e f = absurd (cc h)
newline_lem true false c h e f = absurd (cc f)
newline_lem false b c h e f = absurd (cc e)

place_from_none : (u : List ℕ) → length u ≡ 0 → place_from gap u ≡ gap
unfolding place_from
place_from_none [] h = refl
place_from_none (c ∷ u) h = absurd (omega (arith, h))

get_or-last : (u : List ℕ) → get_or (u ++ 0 ∷ []) (length u) 0 ≡ 0
get_or-last [] = refl
get_or-last (c ∷ u) = get_or-last u

module _ (s : Stage) (u : List ℕ) (f : Strings s u) where
  text_byte : (i : ℕ) → i < s.stgidx → get_or (s.stgbuf) i 0 ≡ get_or (u ++ 0 ∷ []) i 0
  text_byte i h = sym (get_or-take (s.stgbuf) (s.stgidx) i 0 h) ∙ ap (λ t. get_or t i 0) f.text

  -- A text that is not joined ends with a line.
  Strings-line : joins (s.stgbuf) (s.stgidx) ≡ false → place_from gap u ≡ gap
  Strings-line h = elim (ℕ_discrete (length u) 0) [
    | yes z ↦ place_from_none u z
    | no nz ↦
        let last : get_or (s.stgbuf) (s.stgidx - 1) 0 ≡ 0 =
          text_byte (s.stgidx - 1) (omega (arith, f.count))
          ∙ ap (λ i. get_or (u ++ 0 ∷ []) i 0) (omega (arith, f.count))
          ∙ get_or-last u in
        let newline =
          newline_lem (ltb 1 (s.stgidx)) (get_or (s.stgbuf) (s.stgidx - 1) 0 == 0)
            (get_or (s.stgbuf) (s.stgidx - 2) 0 == 10) h
            (lt→ltb 1 (s.stgidx) (omega (arith, f.count, nz))) (rw last refl) in
        let byte =
          text_byte (s.stgidx - 2) (omega (arith, f.count, nz))
          ∙ get_or-append u (0 ∷ []) (s.stgidx - 2) (omega (arith, f.count, nz)) in
        place_from_newline gap u (s.stgidx - 2) (omega (arith, f.count, nz))
          (subst (λ c. (c == 10) ≡ true) byte newline)
  ]

  stgwrite-Strings :
      (str : List ℕ) → is_string str ≡ true → (v : List ℕ) × Strings (stgwrite str s) v
  unfolding stgwrite closed_to
  stgwrite-Strings str h =
      let through = write_through str s in
      let same = if-true (s.staging) (write_staged str s) through f.on in
      elim (Bool-cases (joins (s.stgbuf) (s.stgidx))) [
        | inl y ↦
            let i = s.stgidx - 1 in
            let part : take i (s.stgbuf) ≡ u =
              ap (λ n. take n (s.stgbuf)) (omega (arith, f.count))
              ∙ sym (
                  take-take-append (length u) (s.stgidx) (s.stgbuf) [] (omega (arith, f.count))
                    f.inside)
              ∙ ap (λ t. take (length u) (t ++ [])) f.text
              ∙ ap (take (length u)) (append-nil (u ++ 0 ∷ []))
              ∙ take-append u (0 ∷ []) in
            let there =
              Strings-copy_to s i (s.stglen + length str) u str part (omega (arith, f.inside)) f.on
                (closed_to-append gap u str f.closed
                  (is_string-closed_to (place_from gap u) str h)) in
            (u ++ str, subst (λ r. Strings r (u ++ str)) (sym same) (rw y there))
        | inr n ↦
            let w = u ++ 0 ∷ [] in
            let line = Strings-line n in
            let zero_closed : closed_to (place_from gap u) (0 ∷ []) ≡ true =
              subst (λ p. closed_to p (0 ∷ []) ≡ true) (sym line) refl in
            let w_closed = closed_to-append gap u (0 ∷ []) f.closed zero_closed in
            let there =
              Strings-copy_to s (s.stgidx) (s.stglen + length str) w str f.text f.inside f.on (
                closed_to-append gap w str w_closed
                  (is_string-closed_to (place_from gap w) str h)) in
            (w ++ str, subst (λ r. Strings r (w ++ str)) (sym same) (rw n there))
      ]

send_all-Strings :
    (strs : List (List ℕ)) (s : Stage) (u : List ℕ)
    → Strings s u
    → All (λ str. is_string str ≡ true) strs
    → (v : List ℕ) × Strings (send_all (map string_piece strs) s) v
unfolding send_all
send_all-Strings [] s u f h = (u, f)
send_all-Strings (str ∷ strs) s u f (h, hs) =
    let (v, g) = stgwrite-Strings s u f str h in send_all-Strings strs (stgwrite str s) v g hs

first-Strings :
    (s : Stage) (str : List ℕ)
    → s.staging ≡ true
    → s.stgidx ≡ 0
    → is_string str ≡ true
    → Strings (stgwrite str s) str
unfolding stgwrite
first-Strings s str on z h =
    let none_joined : joins (s.stgbuf) (s.stgidx) ≡ false = ap (joins (s.stgbuf)) z in
    let at_start : take (s.stgidx) (s.stgbuf) ≡ [] = ap (λ n. take n (s.stgbuf)) z in
    let there =
      Strings-copy_to s (s.stgidx) (s.stglen + length str) [] str at_start (omega (arith, z)) on
        (is_string-closed_to gap str h) in
    subst (λ r. Strings r str)
      (sym (if-true (s.staging) (write_staged str s) (write_through str s) on))
      (rw none_joined there)

-- Where strings without zero bytes are written to an empty staging buffer, and the last of them ends a
-- line, each string of the text in the buffer is closed, as `stgopt` needs it.
pub stgwrite-is_closed :
    (s : Stage) (strs : List (List ℕ))
    → s.staging ≡ true
    → s.stgidx ≡ 0
    → All (λ str. is_string str ≡ true) strs
    → joins
        ((send_all (map string_piece strs) s).stgbuf)
        ((send_all (map string_piece strs) s).stgidx)
      ≡ false
    → is_closed gap (
        take
          ((send_all (map string_piece strs) s).stgidx)
          ((send_all (map string_piece strs) s).stgbuf))
      ≡ true
unfolding send_all is_closed
stgwrite-is_closed s [] on z h e = ap (λ n. is_closed gap (take n (s.stgbuf))) z
stgwrite-is_closed s (str ∷ strs) on z (h, hs) e =
    let (v, f) = send_all-Strings strs (stgwrite str s) str (first-Strings s str on z h) hs in
    ap (is_closed gap) f.text
    ∙ closed_to-is_closed gap v f.closed
        (Strings-line (send_all (map string_piece strs) (stgwrite str s)) v f e)
