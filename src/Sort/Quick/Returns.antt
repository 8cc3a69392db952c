-- ===== src/Sort/Quick/Returns.antt =====
-- Quick sort ends, and stays inside its part of the array.
use libhy_utils_bak.Base.{
  ℕ, zero, suc, ◌+◌, ◌<◌, ◌≡◌, refl, ap, ◌∙◌, true, false, some, none, List, ltb, ◌==◌, arith,
}
use libhy_utils_bak.Sort.{Sign}
use libhy_utils_bak.Sort.Quick.{quick, hy_sort_quick}

module _ {ℓ} {A : Type ℓ} (swap_cb : A → A → Sign) where
  spins :
      (item_len fuel count : ℕ) (array : List A)
      → 1 < count
      → quick swap_cb item_len false fuel 0 count array ≡ none
  unfolding quick
  spins item_len zero count array h = refl
  spins item_len (suc fuel) count array h =
      let some_items : ltb 1 count ≡ true = ground (arith, h) in
      rw some_items (
        ap (λ (n : ℕ). quick swap_cb item_len false fuel 0 n array) {x = 0 + count} {y = count}
          (omega arith)
        ∙ spins item_len fuel count array h)

  -- Without memory for the blocks of `_partition`, HySortQuick of two items or more from the start of an array
  -- calls itself on the same items for ever.
  pub hy_sort_quick_spins :
      (fuel count item_len : ℕ) (array : List A)
      → 0 < item_len
      → 1 < count
      → hy_sort_quick swap_cb item_len false fuel (some array) 0 count ≡ none
  unfolding hy_sort_quick
  hy_sort_quick_spins fuel count item_len array pos h =
      let given : (item_len == 0) ≡ false = ground (arith, pos) in
      rw given (rw (spins item_len fuel count array h) refl)
