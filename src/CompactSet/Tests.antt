-- ===== src/CompactSet/Tests.antt =====
-- Compact sets at concrete arrays.
use pawn_x.Prelude.{ℕ, ◌+◌, ◌<◌, ◌≡◌, ◌↔◌, ◌⊎◌, refl, arith}
use pawn_x.Prelude.Int.{ℤ, pos, negsuc, ◌+ℤ◌, ◌-ℤ◌, ◌≤ℤ◌, ◌<ℤ◌}
use pawn_x.CompactSet.{
  Array, count, compact_search, search_from, insert_at, remove_at, gap_from, iter_init, iter_add,
  iter_remove, iter_contains, iter_count, iter_free, iter_get, iter_alloc, iter_next, iter_prev,
  iter_random, xorshift, cellmin,
}
use pawn_x.CompactSet.Search.{Splits, compact_search-Splits}
use pawn_x.CompactSet.Valid.{IsValid}
use pawn_x.CompactSet.Members.{Has}
use pawn_x.CompactSet.Update.{
  Updates, AfterAdd, IsAdded, AfterRemove, iter_init_lem, iter_add-Updates, iter_remove-Updates,
}
use pawn_x.CompactSet.Free.{iter_free_lem, iter_alloc-iter_add}
use pawn_x.CompactSet.Walk.{IsNext, iter_next-IsNext, iter_get-Has, iter_next-iter_remove}

-- An array with garbage in it.
abbrev blank : Array
blank i = negsuc i

abbrev built : Array
built = (iter_add (iter_add (iter_add (iter_init blank).1 (pos 5)).1 (pos 0)).1 (pos 2)).1

built-IsValid : IsValid built
built-IsValid =
    (iter_add-Updates (pos 2)
      (iter_add-Updates (pos 0)
        (iter_add-Updates (pos 5) (iter_init_lem blank).0).valid).valid).valid

built_slots :
    (built 0 ≡ pos 3)
    × (built 1 ≡ pos 0)
    × (built 2 ≡ pos 2)
    × (built 3 ≡ pos 5)
    × (built 4 ≡ negsuc 4)
unfolding iter_init iter_add compact_search search_from insert_at ◌+ℤ◌
built_slots = (refl, refl, refl, refl, refl)

removed_slots :
    let r = iter_remove built (pos 2) in
    (r.0 ≡ pos 1) × (r.1 0 ≡ pos 2) × (r.1 1 ≡ pos 0) × (r.1 2 ≡ pos 5) × (iter_count r.1 ≡ pos 2)
unfolding iter_init iter_add iter_remove iter_count compact_search search_from insert_at ◌+ℤ◌
    remove_at ◌-ℤ◌
removed_slots = (refl, refl, refl, refl, refl)

queries :
    (iter_contains built (pos 5) ≡ pos 1)
    × (iter_contains built (pos 3) ≡ pos 0)
    × (iter_free built ≡ pos 1)
    × (iter_next built (pos 0) ≡ pos 2)
    × (iter_next built (pos 5) ≡ cellmin)
    × (iter_prev built (pos 4) ≡ pos 2)
    × (iter_get built (pos 2) ≡ pos 5)
    × (iter_get built (pos 3) ≡ negsuc 0)
unfolding iter_init iter_add iter_contains iter_free iter_next iter_prev iter_get compact_search
    search_from insert_at ◌+ℤ◌ gap_from
queries = (refl, refl, refl, refl, refl, refl, refl, refl)

-- The first number of the generator from the seed in the source.
random_first : iter_random 32 2463534242 built ≡ (pos 2, 723471715)
unfolding iter_init iter_add iter_random xorshift compact_search search_from insert_at ◌+ℤ◌
random_first = refl

compact_search-Splits_example : Splits built (pos 3) (compact_search built (pos 3))
compact_search-Splits_example = compact_search-Splits built (pos 3) built-IsValid.sorted

iter_add-Updates_example :
    Updates built
      (iter_add built (pos 3)).0
      (iter_add built (pos 3)).1
      (AfterAdd built (pos 3))
      (IsAdded built (pos 3))
      (count built + 1)
iter_add-Updates_example = iter_add-Updates (pos 3) built-IsValid

iter_remove-Updates_example :
    Updates built
      (iter_remove built (pos 2)).0
      (iter_remove built (pos 2)).1
      (AfterRemove built (pos 2))
      (Has built (pos 2))
      (count built)
iter_remove-Updates_example = iter_remove-Updates (pos 2) built-IsValid

iter_free_lem_example :
    (n : ℕ) × (iter_free built ≡ pos n)
    × (¬ (Has built (pos n)))
    × ((m : ℕ) → m < n → Has built (pos m))
iter_free_lem_example = iter_free_lem built-IsValid

iter_alloc-iter_add_example :
    iter_alloc built ≡ (iter_free built, (iter_add built (iter_free built)).1)
iter_alloc-iter_add_example = iter_alloc-iter_add built-IsValid

iter_next-IsNext_example : IsNext built (pos 2) (iter_next built (pos 2))
iter_next-IsNext_example = iter_next-IsNext built-IsValid (pos 2)

iter_get-Has_example :
    ((w : ℤ) → Has built w ↔ ((i : ℕ) × (i < count built) × (iter_get built (pos i) ≡ w)))
    × (((i j : ℕ) → i < j → j < count built → iter_get built (pos i) <ℤ iter_get built (pos j))
        × ((i : ℤ) → ((i <ℤ pos 0) ⊎ (built 0 ≤ℤ i)) → iter_get built i ≡ negsuc 0))
iter_get-Has_example = iter_get-Has built-IsValid

iter_next-iter_remove_example :
    iter_next (iter_remove built (pos 0)).1 (pos 0) ≡ iter_next built (pos 0)
iter_next-iter_remove_example = iter_next-iter_remove (pos 0) (pos 0) built-IsValid (omega arith)
