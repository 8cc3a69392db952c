-- ===== src/Sort/Quick/Partition.antt =====
-- `_partition` ends inside its part of the array.
use libhy_utils_bak.Base.{
  ℕ, zero, suc, ltb, ◌^◌, ◌+◌, ◌-◌, ◌<◌, ◌≤◌, ◌≡◌, ◌≢◌, ◌⊎◌, refl, ap, ◌∙◌, true, false, Option,
  some, List, ◌==◌, get_elem?, set, length, length-set, get_elem?-some, get_elem?-set_other, arith,
  inl, inr, Bool-cases, eq_cases,
}
use libhy_utils_bak.Sort.{Sign, negative, null, positive, above_zero, mem_swap}
use libhy_utils_bak.Sort.Quick.{
  below_zero, fits, item_at, down, up, partition_step, partition_loop, partition,
}
use libhy_utils_bak.Sort.Quick.Region.{
  SameBut, swap_steps, swap_size, swap-SameBut, then_same, swapped_there,
}

module _ {ℓ} {A : Type ℓ} (swap_cb : A → A → Sign) (item_len limit : ℕ)
    (small : ltb item_len (2 ^ 32) ≡ true)
    (fit : (i : ℕ) → i < limit → fits item_len i ≡ true) where
  -- an item that is there and can be reached
  reach :
      (i : ℕ) (array : List A) {x : A}
      → i < limit
      → get_elem? array i ≡ some x
      → item_at item_len i array ≡ some x
  unfolding item_at
  reach i array h e = rw (fit i h) e

  -- The first loop stops, and if not at `low` then at an item below the pivot.
  down_returns :
      (low gap : ℕ) (array : List A) (tmp : A)
      → low + gap < length array
      → length array ≤ limit
      → (gap1 : ℕ) × (down swap_cb item_len low gap array tmp ≡ some gap1)
        × (gap1 ≤ gap)
        × ((gap1 ≡ 0)
            ⊎ ((x : A) × (get_elem? array (low + gap1) ≡ some x)
                × (below_zero (swap_cb x tmp) ≡ true)))
  unfolding down
  down_returns low zero array tmp h c = (0, refl, omega arith, inl refl)
  down_returns low (suc gap) array tmp h c =
      let (x, e) = get_elem?-some array (low + suc gap) h in
      let there = reach (low + suc gap) array (omega arith) e in
      elim (Bool-cases (below_zero (swap_cb x tmp))) [
        | inl b ↦ (suc gap, rw there (rw b refl), omega arith, inr (x, e, b))
        | inr b ↦
            let (gap1, r, le, found) = down_returns low gap array tmp (omega arith) c in
            (gap1, rw there (rw b r), omega (arith, le), found)
      ]

  -- The second loop stops, and moves past a first item that is not above the pivot.
  up_returns :
      (gap low : ℕ) (array : List A) (tmp : A)
      → low + gap < length array
      → length array ≤ limit
      → (moved : ℕ) × (up swap_cb item_len gap low array tmp ≡ some moved) × (moved ≤ gap)
  unfolding up
  up_returns zero low array tmp h c = (0, refl, omega arith)
  up_returns (suc gap) low array tmp h c =
      let (x, e) = get_elem?-some array low (omega arith) in
      let there = reach low array (omega arith) e in
      elim (Bool-cases (above_zero (swap_cb x tmp))) [
        | inl b ↦ (0, rw there (rw b refl), omega arith)
        | inr b ↦
            let (moved, r, le) = up_returns gap (suc low) array tmp (omega arith) c in
            (suc moved, rw there (rw b (rw r refl)), omega (arith, le))
      ]

  up_moves :
      (gap low : ℕ) (array : List A) (tmp x : A)
      → low + suc gap < length array
      → length array ≤ limit
      → get_elem? array low ≡ some x
      → below_zero (swap_cb x tmp) ≡ true
      → (moved : ℕ) × (up swap_cb item_len (suc gap) low array tmp ≡ some (suc moved))
        × (moved ≤ gap)
  unfolding up
  up_moves gap low array tmp x h c e b =
      let (moved, r, le) = up_returns gap (suc low) array tmp (omega arith) c in
      (
        moved,
        rw (reach low array (omega arith) e) (rw (not_above (swap_cb x tmp) b) (rw r refl)),
        le,
      )
    where
      not_above : (s : Sign) → below_zero s ≡ true → above_zero s ≡ false
      not_above negative h = refl
      not_above null h = refl
      not_above positive h = absurd (ground (arith, h))

  step_chain :
      (low gap : ℕ) (array : List A) (tmp : A) {gap1 moved : ℕ} {array1 array2 : List A}
      → down swap_cb item_len low gap array tmp ≡ some gap1
      → mem_swap item_len low (low + gap1) array ≡ some array1
      → up swap_cb item_len gap1 low array1 tmp ≡ some moved
      → mem_swap item_len (low + gap1) (low + moved) array1 ≡ some array2
      → partition_step swap_cb item_len low gap array tmp ≡ some (low + moved, gap1 - moved, array2)
  unfolding partition_step
  step_chain low gap array tmp x y z u = rw x (rw y (rw z (rw u refl)))

  -- what one turn of the outer loop leaves
  record Step (low gap : ℕ) (array : List A) (tmp : A) : Type ℓ where
    low' : ℕ
    gap' : ℕ
    array' : List A
    result : partition_step swap_cb item_len low gap array tmp ≡ some (low', gap', array')
    rises : low ≤ low'
    shrinks : gap' < gap
    within : low' + gap' ≤ low + gap
    same : SameBut low (suc gap) array array'

  -- the part of a turn behind the first loop
  second_half :
      (low gap gap1 : ℕ) (array : List A) (tmp : A)
      → low + gap < length array
      → length array ≤ limit
      → down swap_cb item_len low gap array tmp ≡ some gap1
      → gap1 ≤ gap
      → 0 < gap
      → ((array1 : List A)
          → length array1 ≡ length array
          → mem_swap item_len low (low + gap1) array ≡ some array1
          → (moved : ℕ) × (up swap_cb item_len gap1 low array1 tmp ≡ some moved)
            × (moved ≤ gap1)
            × (gap1 - moved < gap))
      → Step low gap array tmp
  second_half low gap gap1 array tmp h c runs le pos second =
      let (x, e) = get_elem?-some array low (omega arith) in
      let (y, l) = get_elem?-some array (low + gap1) (omega arith) in
      let array1 : List A = set (set array low y) (low + gap1) x in
      let size = swap_size low (low + gap1) array x y in
      let first = swap_steps item_len small low (low + gap1) array e l in
      let (moved, go, far, less) = second array1 size first in
      let (p, m) = get_elem?-some array1 (low + gap1) (omega (arith, size)) in
      let (q, n) = get_elem?-some array1 (low + moved) (omega (arith, size)) in
      record {
        low' = low + moved;
        gap' = gap1 - moved;
        array' = set (set array1 (low + gap1) q) (low + moved) p;
        result =
            step_chain low gap array tmp runs first go
              (swap_steps item_len small (low + gap1) (low + moved) array1 m n);
        rises = omega arith;
        shrinks = less;
        within = omega arith;
        same =
            then_same low (suc gap)
              (swap-SameBut low (suc gap) low (low + gap1) array x y (omega arith) (omega arith)
                (omega arith) (omega arith))
              (swap-SameBut low (suc gap) (low + gap1) (low + moved) array1 p q (omega arith)
                (omega arith) (omega arith) (omega arith))
              (omega arith) (omega arith);
      }

  -- A turn of the outer loop brings the two ends nearer to each other.
  turn_returns :
      (low gap : ℕ) (array : List A) (tmp : A)
      → low + gap < length array
      → length array ≤ limit
      → 0 < gap
      → Step low gap array tmp
  turn_returns low zero array tmp h c pos = absurd (omega arith)
  turn_returns low (suc gap) array tmp h c pos =
      let (gap1, runs, le, found) = down_returns low (suc gap) array tmp h c in
      elim (eq_cases gap1 (suc gap)) [
        | inr less ↦ second_half low (suc gap) gap1 array tmp h c runs le pos (λ array1 size first.
            let (moved, go, far) =
              up_returns gap1 low array1 tmp (omega (arith, size)) (omega (arith, size)) in
            (moved, go, far, omega (arith, less)))
        | inl all ↦ elim found [
          | inl none_left ↦ absurd (omega (arith, all, none_left))
          | inr (y, there, under) ↦
              second_half low (suc gap) gap1 array tmp h c runs le pos (λ array1 size first.
                let (moved, go, far) =
                  up_moves gap low array1 tmp y (omega (arith, size)) (omega (arith, size))
                    (swapped_there item_len small low (low + gap1) array array1 first there
                      (omega arith) (λ q. absurd (omega (arith, q, all))))
                    under in
                (
                  suc moved,
                  ap (λ (g : ℕ). up swap_cb item_len g low array1 tmp) all ∙ go,
                  omega (arith, all, far),
                  omega (arith, all, far),
                ))
        ]
      ]

  loop_step :
      (fuel low gap : ℕ) (array : List A) (tmp : A) {low' gap' : ℕ} {array' : List A}
      → (gap == 0) ≡ false
      → partition_step swap_cb item_len low gap array tmp ≡ some (low', gap', array')
      → partition_loop swap_cb item_len (suc fuel) low gap array tmp
        ≡ partition_loop swap_cb item_len fuel low' gap' array' tmp
  unfolding partition_loop
  loop_step fuel low gap array tmp x y = rw x (rw y refl)

  -- where partitioning a part of an array stops, inside the part
  pub record Parted (low gap : ℕ) (array : List A) (run : Option (ℕ × List A)) : Type ℓ where
    pub position : ℕ
    pub array' : List A
    pub result : run ≡ some (position, array')
    pub from_low : low ≤ position
    pub upto_high : position ≤ low + gap
    pub same : SameBut low (suc gap) array array'

  loop_returns :
      (fuel low gap : ℕ) (array : List A) (tmp : A)
      → low + gap < length array
      → length array ≤ limit
      → gap < fuel
      → Parted low gap array (partition_loop swap_cb item_len fuel low gap array tmp)
  unfolding partition_loop
  loop_returns zero low gap array tmp h c f = absurd (omega arith)
  loop_returns (suc fuel) low gap array tmp h c f = elim (Bool-cases (gap == 0)) [
    | inl e ↦ record {
      position = low;
      array' = set array low tmp;
      result = rw e refl;
      from_low = omega arith;
      upto_high = omega arith;
      same = record {
        size = length-set array low tmp;
        outside = λ i o. get_elem?-set_other array low i tmp (beside i o);
      };
    }
    | inr e ↦
        let s = turn_returns low gap array tmp h c (ground (arith, e)) in
        let p =
          loop_returns fuel s.low' s.gap' s.array' tmp (omega (arith, s.within, s.same.size))
            (omega (arith, s.same.size)) (omega (arith, s.shrinks)) in
        record {
          position = p.position;
          array' = p.array';
          result = loop_step fuel low gap array tmp e s.result ∙ p.result;
          from_low = omega (arith, s.rises, p.from_low);
          upto_high = omega (arith, s.within, p.upto_high);
          same = then_same s.low' (suc s.gap') s.same p.same s.rises (omega (arith, s.within));
        }
  ]
    where
      beside : (i : ℕ) → (i < low) ⊎ (low + suc gap ≤ i) → low ≢ i
      beside i (inl l) = λ q. absurd (omega arith)
      beside i (inr l) = λ q. absurd (omega arith)

  partition_chain :
      (low gap : ℕ) (array : List A) {tmp : A}
      → item_at item_len low array ≡ some tmp
      → partition swap_cb item_len low gap array
        ≡ partition_loop swap_cb item_len (suc gap) low gap array tmp
  unfolding partition
  partition_chain low gap array x = rw x refl

  pub partition_returns :
      (low gap : ℕ) (array : List A)
      → low + gap < length array
      → length array ≤ limit
      → Parted low gap array (partition swap_cb item_len low gap array)
  partition_returns low gap array h c =
      let (tmp, e) = get_elem?-some array low (omega arith) in
      let p = loop_returns (suc gap) low gap array tmp h c (omega arith) in
      record {
        position = p.position;
        array' = p.array';
        result = partition_chain low gap array (reach low array (omega arith) e) ∙ p.result;
        from_low = p.from_low;
        upto_high = p.upto_high;
        same = p.same;
      }
