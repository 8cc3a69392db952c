-- ===== src/Sort/Tests.antt =====
-- Runs of both sorts on numbers.
use mathlib.Core.List.{Permᴰ}
use libhy_utils_bak.Base.{
  ℕ, ◌≡◌, refl, ltb, ◌==◌, if◌then◌else◌, true, false, some, List, [], ◌∷◌, arith,
}
use libhy_utils_bak.Sort.{Sign, negative, null, positive, hy_sort_bubble}
use libhy_utils_bak.Sort.Quick.{hy_sort_quick}
use libhy_utils_bak.Sort.Sorted.{above, is_sorted, hy_sort_bubble-sorts}

-- a comparison of numbers
abbrev difference : ℕ → ℕ → Sign
difference a b = if ltb a b then negative else if a == b then null else positive

asymmetric : (x y : ℕ) → above difference x y ≡ true → above difference y x ≡ false
asymmetric x y h = ground (arith, h)

transitive :
    (x y z : ℕ)
    → above difference x y ≡ false
    → above difference y z ≡ false
    → above difference x z ≡ false
transitive x y z h k = ground (arith, h, k)

bubble-run :
    hy_sort_bubble difference 4 true (some (3 ∷ 1 ∷ 2 ∷ 1 ∷ [])) 4
    ≡ some (some (1 ∷ 1 ∷ 2 ∷ 3 ∷ []))
unfolding hy_sort_bubble
bubble-run = refl

hy_sort_bubble-sorts_example :
    (out : List ℕ) × (hy_sort_bubble difference 4 true (some (3 ∷ 1 ∷ 2 ∷ 1 ∷ [])) 4
      ≡ some (some out))
    × Permᴰ (3 ∷ 1 ∷ 2 ∷ 1 ∷ []) out
    × (is_sorted difference out ≡ true)
hy_sort_bubble-sorts_example =
    hy_sort_bubble-sorts difference asymmetric transitive (3 ∷ 1 ∷ 2 ∷ 1 ∷ []) 4 (omega arith)
      (omega arith) (omega arith)

-- the middle three of five
quick_run :
    hy_sort_quick difference 4 true 4 (some (9 ∷ 3 ∷ 1 ∷ 2 ∷ 0 ∷ [])) 1 3
    ≡ some (some (9 ∷ 1 ∷ 2 ∷ 3 ∷ 0 ∷ []))
unfolding hy_sort_quick
quick_run = refl
