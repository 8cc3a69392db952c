-- ===== src/Sort.antt =====
-- src/hy_sort.c: an array is the list of its items, of `item_len` bytes each.
-- `none` is an access outside the array, a loop that has run out of its fuel, or a size that the code cuts
-- to 32 bits: what it does with a part of an item is not modelled.
mod Tests
pub mod Pass
pub mod Sorted
pub mod Quick
use libhy_utils_bak.Base.{
  ℕ, zero, suc, ◌+◌, ◌^◌, Bool, true, false, not, ◌&&◌, ◌||◌, Option, some, none, List, [], ◌∷◌,
  ltb, ◌==◌, if◌then◌else◌, ◌>>=◌, get_elem?, set, u32, sub_mod,
}

-- the sign of the number that the comparison returns
pub data Sign : Type 0 where
  negative null positive : Sign

abbrev pub above_zero : Sign → Bool
above_zero negative = false
above_zero null = false
above_zero positive = true

module _ {ℓ} {A : Type ℓ} where
  -- `_mem_swap` of the items at two indices; a length that does not fit its `hy_u32_t` is `none`
  unfoldable pub mem_swap : (item_len dst src : ℕ) → List A → Option (List A)
  mem_swap item_len dst src array = if not (ltb item_len (2 ^ 32)) then none else do
    tmp ← get_elem? array dst
    b ← get_elem? array src
    some (set (set array dst b) src tmp)

module _ {ℓ} {A : Type ℓ} (swap_cb : A → A → Sign) (item_len : ℕ) where
  -- the body of the inner loop of `HySortBubble`
  unfoldable pub bubble_step : ℕ → List A → Option (List A)
  unfolding mem_swap
  bubble_step j array = do
    src ← get_elem? array j
    dst ← get_elem? array (u32 (j + 1))
    if above_zero (swap_cb src dst) then mem_swap item_len (u32 (j + 1)) j array else some array

  -- the inner loop, from `j` on
  unfoldable pub bubble_pass : (fuel len i j : ℕ) → List A → Option (List A)
  unfolding bubble_step
  bubble_pass zero len i j array = none
  bubble_pass (suc fuel) len i j array =
      if not (ltb (u32 (j + 1)) (sub_mod (2 ^ 64) len i))
      then some array
      else do array' ← bubble_step j array; bubble_pass fuel len i (u32 (j + 1)) array'

  -- the outer loop, from `i` on
  unfoldable pub bubble_rounds : (fuel len i : ℕ) → List A → Option (List A)
  unfolding bubble_pass
  bubble_rounds zero len i array = none
  bubble_rounds (suc fuel) len i array =
      if not (ltb i len)
      then some array
      else do array' ← bubble_pass len len i 0 array; bubble_rounds fuel len (u32 (i + 1)) array'

  -- `HySortBubble` with a comparison that is not NULL: `malloc_ok` says whether the block for a swap
  -- is allocated; a NULL array is `none`.
  -- Both loops have a step of fuel for each item.
  unfoldable pub hy_sort_bubble :
      (malloc_ok : Bool) → Option (List A) → (len : ℕ) → Option (Option (List A))
  unfolding bubble_rounds
  hy_sort_bubble malloc_ok none len = some none
  hy_sort_bubble malloc_ok (some array) len =
      if (len == 0) || ((item_len == 0) || not malloc_ok)
      then some (some array)
      else do array' ← bubble_rounds (suc len) len 0 array; some (some array')
