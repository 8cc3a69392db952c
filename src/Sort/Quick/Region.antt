-- ===== src/Sort/Quick/Region.antt =====
-- Swaps inside a part of an array leave what stands outside it.
use mathlib.Core.Option.{some-injective}
use libhy_utils_bak.Base.{
  ℕ, ◌^◌, true, ltb, ◌+◌, ◌<◌, ◌≤◌, ◌≡◌, ◌≢◌, ◌⊎◌, refl, sym, ap, ◌∙◌, some, List, get_elem?, set,
  length, length-set, get_elem?-some, get_elem?-set, get_elem?-set_other, arith, inl, inr,
}
use libhy_utils_bak.Sort.{mem_swap}

-- An array of the same length that differs only from `low` on, in `count` items.
pub record SameBut {ℓ} {A : Type ℓ} (low count : ℕ) (array array' : List A) : Type ℓ where
  pub size : length array' ≡ length array
  pub outside : (i : ℕ) → (i < low) ⊎ (low + count ≤ i) → get_elem? array' i ≡ get_elem? array i

module _ {ℓ} {A : Type ℓ} where
  pub swap_steps :
      (item_len : ℕ) (small : ltb item_len (2 ^ 32) ≡ true) (dst src : ℕ) (array : List A) {x y : A}
      → get_elem? array dst ≡ some x
      → get_elem? array src ≡ some y
      → mem_swap item_len dst src array ≡ some (set (set array dst y) src x)
  unfolding mem_swap
  swap_steps item_len small dst src array p q = rw (small) (rw p (rw q refl))

  pub swap_size :
      (dst src : ℕ) (array : List A) (x y : A) → length (set (set array dst y) src x) ≡ length array
  swap_size dst src array x y = length-set (set array dst y) src x ∙ length-set array dst y

  pub swap-SameBut :
      (low count dst src : ℕ) (array : List A) (x y : A)
      → low ≤ dst
      → dst < low + count
      → low ≤ src
      → src < low + count
      → SameBut low count array (set (set array dst y) src x)
  swap-SameBut low count dst src array x y a b c d = record {
    size = swap_size dst src array x y;
    outside = outside;
  }
    where
      outside :
          (i : ℕ)
          → (i < low) ⊎ (low + count ≤ i)
          → get_elem? (set (set array dst y) src x) i ≡ get_elem? array i
      outside i (inl l) =
          get_elem?-set_other (set array dst y) src i x (λ e. absurd (omega arith))
          ∙ get_elem?-set_other array dst i y (λ e. absurd (omega arith))
      outside i (inr l) =
          get_elem?-set_other (set array dst y) src i x (λ e. absurd (omega arith))
          ∙ get_elem?-set_other array dst i y (λ e. absurd (omega arith))

  pub same_all : (low count : ℕ) (array : List A) → SameBut low count array array
  same_all low count array = record { size = refl; outside = λ i h. refl }

  pub then_same :
      {low count : ℕ} {xs ys zs : List A} (low' count' : ℕ)
      → SameBut low count xs ys
      → SameBut low' count' ys zs
      → low ≤ low'
      → low' + count' ≤ low + count
      → SameBut low count xs zs
  then_same {low = low} {count = count} low' count' p q a b = record {
    size = q.size ∙ p.size;
    outside = λ i h. q.outside i (wider i h) ∙ p.outside i h;
  }
    where
      wider : (i : ℕ) → (i < low) ⊎ (low + count ≤ i) → (i < low') ⊎ (low' + count' ≤ i)
      wider i (inl l) = inl (omega arith)
      wider i (inr l) = inr (omega arith)

  pub swapped_there :
      (item_len : ℕ) (small : ltb item_len (2 ^ 32) ≡ true) (dst src : ℕ) (array array1 : List A)
      {y : A}
      → mem_swap item_len dst src array ≡ some array1
      → get_elem? array src ≡ some y
      → dst < length array
      → dst ≢ src
      → get_elem? array1 dst ≡ some y
  swapped_there item_len small dst src array array1 {y} runs e h ne =
      let (x, l) = get_elem?-some array dst h in
      ap (λ (a : List A). get_elem? a dst)
        (some-injective array1 (set (set array dst y) src x)
          (sym runs ∙ swap_steps item_len small dst src array l e))
      ∙ (get_elem?-set_other (set array dst y) src dst x (λ q. ne (sym q))
          ∙ get_elem?-set array dst y h)
