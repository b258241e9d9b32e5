-- ===== src/Compact/Roundtrip.antt =====
-- `expand` of amx.c on what `write_encoded` of sc6.c writes.
use mathlib.Core.List.{reverse, reverse_aux}
use mathlib.Core.Path.{subst}
use pawn_x.Prelude.{
  ℕ, zero, suc, ◌+◌, ◌-◌, ◌*◌, ◌%◌, ◌≤◌, ◌<◌, ◌≡◌, refl, sym, ap, ◌∙◌, arith, true, false, ◌&&◌,
  ◌||◌, ltb, leb, ◌==◌, inl, inr, List, [], ◌∷◌, ◌++◌, some, length, All, Bool-cases,
}
use pawn_x.Cell.{modulus}
use pawn_x.Memory.{Memory, write}
use pawn_x.MemoryFile.{slice}
use pawn_x.Compact.{
  encode_cell, Out, compact_margin, write_encoded, read_cell, Spare, Expanding, code_back, flush,
  place_cell, expand_step, expand_from, expand,
}
use pawn_x.Compact.ReadCell.{read_cell-encode_cell}
use pawn_x.Compact.Spares.{
  settle, Held, length-Held, Held-nil_above, Held-nil, Held-append, settle-append, flush-Held,
  settle-flush, code_back-flush, code_back-write, length-code_back, code_back_rest,
}
use pawn_x.Compact.Tape.{
  tape, plain, Small, stored_all, continues-tape, length-tape, length-reverse_aux, All-reverse_aux,
  stored_above, slice-stored_all, code_back-slice, write_encoded-tape, write_encoded-plain,
}

-- The state of `expand` in front of the cells `rs`, where `code` is the memory with the spare cells.
pub record Ready (rs : List ℕ) (code : Memory) (x : Expanding) : Type 0 where
  pub bytes : code_back x.code x.codesize ≡ tape rs
  pub room : x.memsize ≡ 4 * length rs
  pub held : Held x.memsize x.codesize x.spare
  pub settled : settle x.code x.spare ≡ code

growth : (rs : List ℕ) → Small rs → length (tape rs) < 4 * length rs + (compact_margin - 2)
unfolding Small tape
growth [] s = omega arith
growth (c ∷ rs) s = s.0

not_placed :
    (rs : List ℕ)
    → (ltb (length (tape rs)) (4 * length rs)
        || ((4 * length rs == length (tape rs)) && (4 * length rs == 0)))
      ≡ false
    → (4 * length rs ≤ length (tape rs)) × (4 ≤ 4 * length rs)
unfolding tape
not_placed [] f = absurd (cc f)
not_placed (c ∷ rs) f = (ground arith, omega arith)

-- The cell is stored at its place, or among the spare cells, of which there are few enough.
place_cell_lem :
    (c : ℕ) (rs : List ℕ) (code : Memory) (spare : List Spare)
    → code_back code (length (tape rs)) ≡ tape rs
    → Held (4 * length rs + 4) (length (tape rs)) spare
    → Small rs
    → (x : Expanding) × ((place_cell c (length (tape rs)) (4 * length rs) (code, spare) ≡ some x)
        × Ready rs (write (settle code spare) (4 * length rs) c) x)
unfolding settle Held
place_cell_lem c rs code spare u h s =
    let e = length (tape rs) in
    let m = 4 * length rs in
    elim (Bool-cases (ltb e m || ((m == e) && (m == 0)))) [
      | inl y ↦
          let low : e ≤ m = ground arith in
          let empty = Held-nil_above (m + 4) e spare h (omega arith) in
          (
            record { code = write code m c; codesize = e; memsize = m; spare = [] },
            (
              rw (empty, y) refl,
              record {
                bytes = code_back-write code m c e low ∙ u;
                room = refl;
                held = tt;
                settled = rw empty refl;
              },
            ),
          )
      | inr f ↦
          let high : (m ≤ e) × (4 ≤ m) = not_placed rs f in
          let few : ltb (length spare) compact_margin ≡ true =
            ground (arith, length-Held (m + 4) e spare h, growth rs s) in
          (
            record {
              code = code;
              codesize = e;
              memsize = m;
              spare = spare ++ (record { memloc = m; c = c } ∷ []);
            },
            (
              rw (f, few) refl,
              record {
                bytes = u;
                room = refl;
                held = Held-append m e c spare h high.0 high.1;
                settled = settle-append code spare (record { memloc = m; c = c });
              },
            ),
          )
    ]

-- A round of `expand` takes a cell off.
round_lem :
    (c : ℕ) (rs : List ℕ) (code : Memory) (x : Expanding)
    → All (λ c. c < modulus) (c ∷ rs)
    → Small (c ∷ rs)
    → Ready (c ∷ rs) code x
    → (x' : Expanding) × ((expand_step x (read_cell (code_back x.code x.codesize) 0 0) ≡ some x')
        × Ready rs (write code (4 * length rs) c) x')
unfolding tape Small
round_lem c rs code x (h, a) (l, s) r =
    let e = length (tape rs) in
    let read : read_cell (code_back x.code x.codesize) 0 0 ≡ some (c, tape rs) =
      ap (λ b. read_cell b 0 0) r.bytes
      ∙ read_cell-encode_cell c (tape rs) h (continues-tape rs a) in
    let f = flush e x.code x.spare in
    let rest : code_back f.0 e ≡ tape rs =
      code_back-flush e x.code x.spare
      ∙ code_back_rest x.code x.codesize (reverse (encode_cell c)) (tape rs) r.bytes in
    let size : x.memsize ≡ 4 * length rs + 4 = omega (arith, r.room) in
    let less : x.memsize - 4 ≡ 4 * length rs = omega (arith, size) in
    let four : leb 4 x.memsize ≡ true = ground (arith, size) in
    let held =
      flush-Held e (4 * length rs + 4) x.codesize x.code x.spare
        (subst (λ m. Held m x.codesize x.spare) size r.held) in
    let (x', (p, ready)) = place_cell_lem c rs f.0 f.1 rest held s in
    let same : settle f.0 f.1 ≡ code = settle-flush e x.code x.spare ∙ r.settled in
    (
      x',
      (
        ap (expand_step x) read ∙ rw (four, less) p,
        subst (λ m. Ready rs (write m (4 * length rs) c) x') same ready,
      ),
    )

end_rounds :
    (rounds : ℕ) (x : Expanding)
    → (x.codesize == 0) ≡ true
    → (x.memsize == 0) ≡ true
    → expand_from rounds x ≡ some x.code
unfolding expand_from
end_rounds zero x stop done = rw (expand_from, stop, done) refl
end_rounds (suc rounds) x stop done = rw (expand_from, stop, done) refl

-- The end of the loop, with no spare cell left.
end :
    (rounds : ℕ) (code : Memory) (x : Expanding)
    → Ready [] code x
    → expand_from rounds x ≡ some code
unfolding expand_from tape settle
end rounds code x r =
    let none_left : x.codesize ≡ 0 = sym (length-code_back x.code x.codesize) ∙ ap length r.bytes in
    let stop : (x.codesize == 0) ≡ true = ground arith in
    let done : (x.memsize == 0) ≡ true = ground (arith, r.room) in
    let empty =
      Held-nil x.memsize x.spare (subst (λ n. Held x.memsize n x.spare) none_left r.held) in
    let same : x.code ≡ code = sym (ap (settle x.code) empty) ∙ r.settled in
    end_rounds rounds x stop done ∙ ap some same

expand_from-Ready :
    (rs : List ℕ) (rounds : ℕ) (code : Memory) (x : Expanding)
    → All (λ c. c < modulus) rs
    → Small rs
    → length rs ≤ rounds
    → Ready rs code x
    → expand_from rounds x ≡ some (stored_all rs code)
unfolding expand_from stored_all Small
expand_from-Ready [] rounds code x a s n r = end rounds code x r
expand_from-Ready (c ∷ rs) zero code x a s n r = absurd (omega arith)
expand_from-Ready (c ∷ rs) (suc rounds) code x a s n r =
    let (x', (step, ready)) = round_lem c rs code x a s r in
    let more : (x.codesize == 0) ≡ false =
      ground
        (arith, ap length r.bytes, length-code_back x.code x.codesize, length-tape (c ∷ rs) a) in
    rw (expand_from, more, step)
      (expand_from-Ready rs rounds (write code (4 * length rs) c) x' a.1 s.1 (omega arith) ready)

abbrev pub fresh : Out
fresh = record { bin = []; bytes_in = 0; bytes_out = 0 }

-- Where `write_encoded` with `sc_compress`, from the start of the file on, returns for cells of 32
-- bits and does not give up, `expand` on a memory that starts with the bytes it has written passes
-- its assertions; it leaves there the bytes that `write_encoded` writes for the cells without
-- `sc_compress`, and changes nothing behind these.
pub expand-write_encoded :
    (cs : List ℕ) (w : Out) (code : Memory)
    → All (λ c. c < modulus) cs
    → write_encoded true cs fresh ≡ some w
    → slice code 0 (length w.bin) ≡ w.bin
    → (plain_file : Out) × (code' : Memory) × (write_encoded false cs fresh ≡ some plain_file)
      × (expand code (length w.bin) (4 * length cs) ≡ some code')
      × (slice code' 0 (4 * length cs) ≡ plain_file.bin)
      × ((x : ℕ) → 4 * length cs ≤ x → code' x ≡ code x)
unfolding expand tape plain Small Held settle
expand-write_encoded cs w code a e b =
    let rs = reverse_aux cs [] in
    let n : length rs ≡ length cs = omega (arith, length-reverse_aux cs []) in
    let (bytes, small) = write_encoded-tape cs [] fresh w refl refl refl tt e in
    let cells = All-reverse_aux (λ c. c < modulus) cs [] a tt in
    let back_all : code_back code (length w.bin) ≡ tape rs =
      code_back-slice code (length w.bin) ∙ ap reverse b ∙ bytes in
    let rounds : length rs ≤ length w.bin =
      omega
        (arith, length-tape rs cells, ap length back_all, length-code_back code (length w.bin)) in
    let ready : Ready rs code
        (record { code = code; codesize = length w.bin; memsize = 4 * length cs; spare = [] }) =
      record { bytes = back_all; room = omega (arith, n); held = tt; settled = refl } in
    let aligned : (4 * length cs % 4 == 0) ≡ true = ground arith in
    (
      record fresh { bin = plain rs },
      stored_all rs code,
      write_encoded-plain cs [] fresh refl,
      rw (expand, aligned) (expand_from-Ready rs (length w.bin) code _ cells small rounds ready),
      ap (λ k. slice (stored_all rs code) 0 (4 * k)) (sym n) ∙ slice-stored_all rs code,
      λ x h. stored_above rs code x (omega (arith, n, h)),
    )
