-- ===== src/CompactSet/Update.antt =====
-- What `setadd`, `setremove`, `sethas` and `setinit` do, against membership in an abstract set.
use pawn_x.Prelude.{ℕ, ◌+◌, ◌≤◌, ◌≡◌, ◌≢◌, ◌↔◌, ◌⊎◌, inl, inr, arith, refl, Bool-cases, tests, suc}
use pawn_x.Prelude.Int.{ℤ, pos, ltb_ℤ, ◌≤ℤ◌, eq_of_parts}
use pawn_x.CompactSet.{
  Array, count, compact_search, insert_at, iter_init, iter_add, iter_remove, iter_contains,
}
use pawn_x.CompactSet.Search.{Splits, compact_search-Splits}
use pawn_x.CompactSet.Shift.{insert_at_lem, remove_at_lem}
use pawn_x.CompactSet.Valid.{IsValid, Gap, Splits-Gap, insert_at-IsValid, remove_at-IsValid}
use pawn_x.CompactSet.Members.{Has, found_cases, Has-insert_at, Has-remove_at}

-- The contract of an operation that makes `arr'` of `arr` and returns `r`: it keeps the invariant,
-- the members of `arr'` are those that `After` says, the result is 1 if `Changed`, and otherwise 0
-- with the array as it was, and no slot past `last` is written.
pub record Updates (arr : Array) (r : ℤ) (arr' : Array) (After : ℤ → Type 0) (Changed : Type 0)
    (last : ℕ) : Type 0 where
  pub valid : IsValid arr'
  pub members : (w : ℤ) → Has arr' w ↔ After w
  pub result : (Changed × (r ≡ pos 1)) ⊎ ((¬ Changed) × (r ≡ pos 0) × (arr' ≡ arr))
  pub frame : (k : ℕ) → arr' (last + 1 + k) ≡ arr (last + 1 + k)

abbrev pub AfterAdd : Array → ℤ → ℤ → Type 0
AfterAdd arr value w = Has arr w ⊎ ((pos 0 ≤ℤ value) × (w ≡ value))

abbrev pub IsAdded : Array → ℤ → Type 0
IsAdded arr value = (pos 0 ≤ℤ value) × (¬ (Has arr value))

-- The case of `setadd` that inserts.
insert_at-Updates :
    {arr : Array} {value : ℤ} {p : ℕ}
    → IsValid arr
    → pos 0 ≤ℤ value
    → Gap arr value p
    → ¬ (Has arr value)
    → Updates arr
        (pos 1)
        (insert_at p value arr)
        (AfterAdd arr value)
        (IsAdded arr value)
        (count arr + 1)
insert_at-Updates {arr} {value} {p} v nn g new = record {
  valid = insert_at-IsValid v nn g;
  members = λ w. (
    λ h. elim ((Has-insert_at v w g).0 h) [ inl m ↦ inl m | inr e ↦ inr (nn, e) ],
    elim [ inl m ↦ (Has-insert_at v w g).1 (inl m) | inr t ↦ (Has-insert_at v w g).1 (inr t.1) ],
  );
  result = inl ((nn, new), refl);
  frame = λ k.
      rw (insert_at_lem p value arr (count arr + 1 + 1 + k) g.low g.high) (ground (arith, g.high));
}

-- `setadd` on a valid set keeps the invariant. Its members are then the old ones, and the value if
-- that is not negative. It returns 1 exactly if the value is not negative and was no member, and
-- otherwise returns 0 and changes nothing. It writes no slot past `count + 1`.
pub iter_add-Updates :
    {arr : Array} (value : ℤ)
    → IsValid arr
    → Updates arr
        (iter_add arr value).0
        (iter_add arr value).1
        (AfterAdd arr value)
        (IsAdded arr value)
        (count arr + 1)
unfolding iter_add
iter_add-Updates {arr} value v = elim (Bool-cases (ltb_ℤ value (pos 0))) [
  | inl neg ↦ rw neg (record {
    valid = v;
    members = λ w. (λ h. inl h, elim [ inl h ↦ h | inr t ↦ absurd (omega (tests, t.0)) ]);
    result = inr (λ c. omega (tests, c.0), refl, refl);
    frame = λ k. refl;
  })
  | inr nn ↦ elim (found_cases v value) [
    | inl (t, h) ↦
        rw (nn, t)
          (record {
            valid = v;
            members = λ w. (λ m. inl m, elim [ inl m ↦ m | inr t ↦ rw t.1 h ]);
            result = inr (λ c. c.1 h, refl, refl);
            frame = λ k. refl;
          })
    | inr (f, h) ↦
        rw (nn, f)
          (insert_at-Updates v (ground arith)
            (Splits-Gap v (compact_search-Splits arr value v.sorted) f) h)
  ]
]

abbrev pub AfterRemove : Array → ℤ → ℤ → Type 0
AfterRemove arr value w = Has arr w × (w ≢ value)

-- `setremove` on a valid set keeps the invariant. Its members are then the old ones without the
-- value. It returns 1 exactly if the value was a member, and otherwise returns 0 and changes
-- nothing. It writes no slot past `count`.
pub iter_remove-Updates :
    {arr : Array} (value : ℤ)
    → IsValid arr
    → Updates arr
        (iter_remove arr value).0
        (iter_remove arr value).1
        (AfterRemove arr value)
        (Has arr value)
        (count arr)
unfolding iter_remove
iter_remove-Updates {arr} value v = elim (found_cases v value) [
  | inl (t, h) ↦
      let p = compact_search arr value in
      let s : Splits arr value p = compact_search-Splits arr value v.sorted in
      let le : p ≤ count arr = ground arith in
      let e : arr p ≡ value = ground (arith, eq_of_parts (arr p) value) in
      rw t (record {
        valid = remove_at-IsValid v s.low le;
        members = λ w. rw e at (Has-remove_at v w s.low le);
        result = inl (h, refl);
        frame = λ k. rw (remove_at_lem p arr (count arr + 1 + k) le) (ground arith);
      })
  | inr (f, h) ↦ rw f (record {
    valid = v;
    members = λ w. (λ m. (m, λ e. h (rw e at m)), λ m. m.0);
    result = inr (h, refl, refl);
    frame = λ k. refl;
  })
]

-- `sethas` on a valid set returns 1 if the value is a member and 0 if it is not.
pub iter_contains-Has :
    {arr : Array} (value : ℤ)
    → IsValid arr
    → (Has arr value × (iter_contains arr value ≡ pos 1))
      ⊎ ((¬ (Has arr value)) × (iter_contains arr value ≡ pos 0))
unfolding iter_contains
iter_contains-Has value v = elim (found_cases v value) [
  | inl (t, h) ↦ inl (h, rw t)
  | inr (f, h) ↦ inr (h, rw f)
]

-- `setinit` makes an empty valid set of any array, and writes slot 0 alone.
pub iter_init_lem :
    (arr : Array)
    → IsValid (iter_init arr).1
      × ((w : ℤ) → ¬ (Has (iter_init arr).1 w))
      × ((k : ℕ) → (iter_init arr).1 (suc k) ≡ arr (suc k))
unfolding iter_init
iter_init_lem arr = (
  record {
    counted = refl;
    sorted = λ i j l h k. absurd (omega arith);
    nonneg = λ i l h. absurd (omega arith);
  },
  λ w m. omega (arith, m.1, m.2),
  λ k. ground arith,
)
