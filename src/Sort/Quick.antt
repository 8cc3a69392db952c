-- ===== src/Sort/Quick.antt =====
-- src/hy_sort.c: quick sort. The items from `low` to `high` are given by `low` and how many they are,
-- since `high` may lie below `low` by one. The code computes the offset of an item in 32 bits: an item
-- whose offset does not fit is not modelled, and `none`.
pub mod Region
pub mod Partition
pub mod Returns
use libhy_utils_bak.Base.{
  ℕ, zero, suc, ◌+◌, ◌-◌, ◌*◌, ◌^◌, ◌&&◌, Bool, true, false, not, ◌||◌, Option, some, none, List,
  ltb, ◌==◌, if◌then◌else◌, ◌>>=◌, get_elem?, set,
}
use libhy_utils_bak.Sort.{Sign, negative, null, positive, above_zero, mem_swap}

abbrev pub below_zero : Sign → Bool
below_zero negative = true
below_zero null = false
below_zero positive = false

-- `_ARRAY_LOW` and `_ARRAY_HIGHT` at an index: whether the offset, and the length, fit 32 bits
abbrev pub fits : (item_len i : ℕ) → Bool
fits item_len i = ltb item_len (2 ^ 32) && ltb (i * item_len) (2 ^ 32)

unfoldable pub item_at {ℓ} : {A : Type ℓ} (item_len i : ℕ) → List A → Option A
item_at item_len i array = if fits item_len i then get_elem? array i else none

module _ {ℓ} {A : Type ℓ} (swap_cb : A → A → Sign) (item_len : ℕ) where
  -- the first inner loop of `_partition`: how far `high` lies from `low` when it stops
  unfoldable pub down : (low gap : ℕ) → List A → A → Option ℕ
  unfolding item_at
  down low zero array tmp = some zero
  down low (suc gap) array tmp =
      let rest = down low gap array tmp in
      do
        x ← item_at item_len (low + suc gap) array
        (if below_zero (swap_cb x tmp) then some (suc gap) else rest)

  -- the second inner loop: by how much `low` goes up
  unfoldable pub up : (gap low : ℕ) → List A → A → Option ℕ
  unfolding item_at
  up zero low array tmp = some zero
  up (suc gap) low array tmp =
      let rest = up gap (suc low) array tmp in
      do
        x ← item_at item_len low array
        (if above_zero (swap_cb x tmp) then some zero else (rest >>= λ moved. some (suc moved)))

  -- the body of the loop of `_partition`: `low`, how far `high` lies from it, and the array
  unfoldable pub partition_step : (low gap : ℕ) → List A → A → Option (ℕ × ℕ × List A)
  unfolding down up mem_swap
  partition_step low gap array tmp = do
    gap1 ← down low gap array tmp
    array1 ← mem_swap item_len low (low + gap1) array
    moved ← up gap1 low array1 tmp
    array2 ← mem_swap item_len (low + gap1) (low + moved) array1
    some (low + moved, gap1 - moved, array2)

  unfoldable pub partition_loop : (fuel low gap : ℕ) → List A → A → Option (ℕ × List A)
  unfolding partition_step
  partition_loop zero low gap array tmp = none
  partition_loop (suc fuel) low gap array tmp =
      if gap == 0
      then some (low, set array low tmp)
      else (partition_step low gap array tmp >>= λ s. partition_loop fuel s.0 s.1 s.2 tmp)

  -- `_partition` with memory for its two blocks: where it stops, and the array
  unfoldable pub partition : (low gap : ℕ) → List A → Option (ℕ × List A)
  unfolding item_at partition_loop
  partition low gap array = do
    tmp ← item_at item_len low array
    partition_loop (suc gap) low gap array tmp

  -- `HySortQuick` of `count` items from `low` on, behind its tests. Without memory `_partition` returns -1.
  unfoldable pub quick : (malloc_ok : Bool) → (fuel low count : ℕ) → List A → Option (List A)
  unfolding partition
  quick malloc_ok zero low count array = none
  quick malloc_ok (suc fuel) low count array =
      if not (ltb 1 count)
      then some array
      else if not malloc_ok
      then quick malloc_ok fuel 0 (low + count) array
      else (partition low (count - 1) array >>= λ s.
          quick malloc_ok fuel low (s.0 - low) s.1 >>= λ array1.
          quick malloc_ok fuel (s.0 + 1) (low + count - (s.0 + 1)) array1)

  -- `HySortQuick` with a comparison that is not NULL; a NULL array is `none`
  unfoldable pub hy_sort_quick :
      (malloc_ok : Bool) → (fuel : ℕ) → Option (List A) → (low count : ℕ) → Option (Option (List A))
  unfolding quick
  hy_sort_quick malloc_ok fuel none low count = some none
  hy_sort_quick malloc_ok fuel (some array) low count =
      if item_len == 0
      then some (some array)
      else (quick malloc_ok fuel low count array >>= λ out. some (some out))
