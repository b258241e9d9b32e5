-- ===== src/Machine/Switch.antt =====
-- The binary search of OP_SWITCH (amx.c) on a case table.
use pawn_x.Prelude.{
  ℕ, zero, suc, ◌+◌, ◌-◌, ◌*◌, ◌/◌, ◌%◌, ◌≤◌, ◌<◌, ◌≡◌, ◌≢◌, inl, inr, ap, arith, tests, ltb, true,
  false, refl, Bool-cases, dec_lt, ℕ_discrete,
}
use pawn_x.Cell.{modulus, cell_min, slt}
use pawn_x.Machine.{Program}
use pawn_x.Machine.Sys.{find_case, switch_target}

-- The place of a cell in the signed order.
abbrev pub rank : ℕ → ℕ
rank a = (a + cell_min) % modulus

slt→lt : (a b : ℕ) → slt a b ≡ true → rank a < rank b
slt→lt a b h = ground arith

rank_of_neither : (a b : ℕ) → slt a b ≡ false → slt b a ≡ false → rank a ≡ rank b
rank_of_neither a b h k = ground arith

rank_injective : {a b : ℕ} → a < modulus → b < modulus → rank a ≡ rank b → a ≡ b
rank_injective h k e = omega arith

lt_irrefl : {n : ℕ} → ¬ (n < n)
lt_irrefl h = omega arith

module _ (code : ℕ → ℕ) (table : ℕ) where
  abbrev pub value : ℕ → ℕ
  value k = code (table + 8 * k)

  abbrev pub target : ℕ → ℕ
  target k = code (table + 8 * k + 4)

  -- The records stand in ascending signed order of their values.
  abbrev pub IsAscending : ℕ → Type 0
  IsAscending n = (i j : ℕ) → i < j → j < n → rank (value i) < rank (value j)

  find_case_miss :
      (n rounds i top pri default : ℕ)
      → top ≤ n
      → pri < modulus
      → ((k : ℕ) → k < n → (value k < modulus) × (value k ≢ pri))
      → find_case rounds code table pri i top default ≡ default
  unfolding find_case
  find_case_miss n zero i top pri default t hp m = refl
  find_case_miss n (suc rounds) i top pri default t hp m = elim (Bool-cases (ltb i top)) [
    | inr stop ↦ rw stop
    | inl go ↦
        let mid = (i + top - 1) / 2 in
        elim (Bool-cases (slt (value mid) pri)) [
          | inl lt ↦ rw (go, lt) (find_case_miss n rounds (mid + 1) top pri default t hp m)
          | inr ge ↦ elim (Bool-cases (slt pri (value mid))) [
            | inl gt ↦
                rw (go, ge, gt) (find_case_miss n rounds i mid pri default (omega tests) hp m)
            | inr eq ↦
                let near = m mid (omega tests) in
                absurd (near.1 (rank_injective near.0 hp (rank_of_neither _ _ ge eq)))
          ]
        ]
  ]

  module _ (n : ℕ) (ascending : IsAscending n) where
    index_lt : (i j : ℕ) → i < n → rank (value i) < rank (value j) → i < j
    index_lt i j h lt = elim (dec_lt i j) [
      | yes p ↦ p
      | no p ↦ elim (ℕ_discrete i j) [
        | yes e ↦ absurd (lt_irrefl (rw (ap (λ k. rank (value k)) e) at lt))
        | no ne ↦ absurd (omega (arith, ascending j i (omega arith) h))
      ]
    ]

    index_eq : (i j : ℕ) → i < n → j < n → rank (value i) ≡ rank (value j) → i ≡ j
    index_eq i j hi hj e = elim (dec_lt i j) [
      | yes p ↦ absurd (omega (arith, ascending i j p hj))
      | no p ↦ elim (dec_lt j i) [
        | yes q ↦ absurd (omega (arith, ascending j i q hi))
        | no q ↦ omega arith
      ]
    ]

    find_case_hit :
        (rounds i top k pri default : ℕ)
        → i ≤ k
        → k < top
        → top ≤ n
        → top - i ≤ rounds
        → value k ≡ pri
        → find_case rounds code table pri i top default ≡ target k
    unfolding find_case
    find_case_hit zero i top k pri default l h t r e = absurd (omega arith)
    find_case_hit (suc rounds) i top k pri default l h t r e =
        let mid = (i + top - 1) / 2 in
        let go : ltb i top ≡ true = ground arith in
        elim (Bool-cases (slt (value mid) pri)) [
          | inl lt ↦
              let past : mid < k = index_lt mid k (omega arith) (rw e (slt→lt _ _ lt)) in
              rw (go, lt)
                (find_case_hit rounds (mid + 1) top k pri default (omega (arith, past)) h t
                  (omega arith) e)
          | inr ge ↦ elim (Bool-cases (slt pri (value mid))) [
            | inl gt ↦
                let before : k < mid = index_lt k mid (omega arith) (rw e (slt→lt _ _ gt)) in
                rw (go, ge, gt)
                  (find_case_hit rounds i mid k pri default l before (omega arith) (omega arith) e)
            | inr eq ↦
                let same : mid ≡ k =
                  index_eq mid k (omega arith) (omega arith) (rw e (rank_of_neither _ _ ge eq)) in
                rw (go, ge, eq) (ap target same)
          ]
        ]

-- The case table behind a `casetbl` opcode at `label`.
abbrev pub records : Program → ℕ → ℕ
records p label = p.code (label + 4)

-- Where the case table is sorted, OP_SWITCH goes to the target of the record with the value of
-- `pri`.
pub switch_target_hit :
    (p : Program) (label k : ℕ)
    → IsAscending p.code (label + 12) (records p label)
    → k < records p label
    → switch_target p label (value p.code (label + 12) k) ≡ target p.code (label + 12) k
unfolding switch_target
switch_target_hit p label k ascending h =
    find_case_hit p.code (label + 12) (records p label) ascending (records p label) 0
      (records p label) k _ _ (omega arith) h (omega arith) (omega arith) refl

-- Where `pri` and the values are cells and no record has the value of `pri`, OP_SWITCH goes to the
-- default target, sorted or not.
pub switch_target_miss :
    (p : Program) (label pri : ℕ)
    → pri < modulus
    → ((k : ℕ)
        → k < records p label
        → (value p.code (label + 12) k < modulus) × (value p.code (label + 12) k ≢ pri))
    → switch_target p label pri ≡ p.code (label + 8)
unfolding switch_target
switch_target_miss p label pri hp m =
    find_case_miss p.code (label + 12) (records p label) (records p label) 0 (records p label) pri
      (p.code (label + 8)) (omega arith) hp m
