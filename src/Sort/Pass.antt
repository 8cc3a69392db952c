-- ===== src/Sort/Pass.antt =====
-- One pass of bubble sort, on the list of the items that it goes over.
use mathlib.Core.List.{append_assoc}
use libhy_utils_bak.Base.{
  ℕ, zero, suc, ◌+◌, ◌^◌, ◌<◌, ◌≡◌, refl, sym, ap, ◌∙◌, true, false, some, List, [], ◌∷◌, ◌++◌, ltb,
  if◌then◌else◌, get_elem?, set, u32, sub_mod, length, length-append, get_elem?-append, arith,
  Bool-cases, inl, inr,
}
use libhy_utils_bak.Sort.{Sign, above_zero, bubble_step, bubble_pass}

module _ {ℓ} {A : Type ℓ} where
  set-append :
      (xs ys : List A) (k : ℕ) (v : A) → set (xs ++ ys) (length xs + k) v ≡ xs ++ set ys k v
  set-append [] ys k v = ap (λ (i : ℕ). set ys i v) {x = 0 + k} {y = k} (omega arith)
  set-append (x ∷ xs) ys k v =
      ap (λ (i : ℕ). set (x ∷ (xs ++ ys)) i v) {x = suc (length xs) + k} {y = suc (length xs + k)}
        (omega arith)
      ∙ ap (λ t. x ∷ t) (set-append xs ys k v)

  -- the same at an index that is the length
  item_at : (xs ys : List A) (j k : ℕ) → j ≡ length xs + k → get_elem? (xs ++ ys) j ≡ get_elem? ys k
  item_at xs ys j k e = ap (get_elem? (xs ++ ys)) e ∙ get_elem?-append xs ys k

  set_at :
      (xs ys : List A) (j k : ℕ) (v : A) → j ≡ length xs + k → set (xs ++ ys) j v ≡ xs ++ set ys k v
  set_at xs ys j k v e = ap (λ (i : ℕ). set (xs ++ ys) i v) e ∙ set-append xs ys k v

module _ {ℓ} {A : Type ℓ} (swap_cb : A → A → Sign) where
  -- what a pass makes of the item that it starts with and the others
  abbrev pub bubble_up : A → List A → List A
  bubble_up x [] = x ∷ []
  bubble_up x (y ∷ ys) = if above_zero (swap_cb x y) then y ∷ bubble_up x ys else x ∷ bubble_up y ys

  -- the item that goes on, and the one that stays behind
  abbrev larger : A → A → A
  larger x y = if above_zero (swap_cb x y) then x else y

  abbrev smaller : A → A → A
  smaller x y = if above_zero (swap_cb x y) then y else x

  bubble_up_step :
      (x y : A) (ys : List A) → bubble_up x (y ∷ ys) ≡ smaller x y ∷ bubble_up (larger x y) ys
  bubble_up_step x y ys = elim (Bool-cases (above_zero (swap_cb x y))) [
    | inl e ↦ rw e refl
    | inr e ↦ rw e refl
  ]

  module _ (item_len : ℕ) (small : ltb item_len (2 ^ 32) ≡ true) where
    bubble_step_lem :
        (xs ys : List A) (x y : A) (j : ℕ)
        → j ≡ length xs
        → j + 1 < 2 ^ 32
        → bubble_step swap_cb item_len j (xs ++ (x ∷ y ∷ ys))
          ≡ some (xs ++ (smaller x y ∷ larger x y ∷ ys))
    unfolding bubble_step
    bubble_step_lem xs ys x y j ej w =
        let next : u32 (j + 1) ≡ length xs + 1 = omega arith in
        let here : j ≡ length xs + 0 = omega arith in
        elim (Bool-cases (above_zero (swap_cb x y))) [
          | inl e ↦ rw (item_at xs (x ∷ y ∷ ys) j 0 here) (
              rw (item_at xs (x ∷ y ∷ ys) (u32 (j + 1)) 1 next) (
                rw (e, small)
                  (rw (set_at xs (x ∷ y ∷ ys) (u32 (j + 1)) 1 x next)
                    (rw (set_at xs (x ∷ x ∷ ys) j 0 y here) refl))))
          | inr e ↦
              rw (item_at xs (x ∷ y ∷ ys) j 0 here)
                (rw (item_at xs (x ∷ y ∷ ys) (u32 (j + 1)) 1 next) (rw e refl))
        ]

    -- The inner loop goes over the items from `j` on that are not sorted yet.
    pub bubble_pass_lem :
        (rest : List A) (fuel len i j : ℕ) (front tail : List A) (x : A)
        → j ≡ length front
        → sub_mod (2 ^ 64) len i ≡ j + 1 + length rest
        → j + 1 + length rest < 2 ^ 32
        → length rest < fuel
        → bubble_pass swap_cb item_len fuel len i j (front ++ (x ∷ (rest ++ tail)))
          ≡ some (front ++ (bubble_up x rest ++ tail))
    unfolding bubble_pass
    bubble_pass_lem rest zero len i j front tail x e s w h = absurd (omega arith)
    bubble_pass_lem [] (suc fuel) len i j front tail x e s w h =
        let stop : ltb (u32 (j + 1)) (sub_mod (2 ^ 64) len i) ≡ false = ground (arith, s) in
        rw stop refl
    bubble_pass_lem (y ∷ ys) (suc fuel) len i j front tail x e s w h =
        let go : ltb (u32 (j + 1)) (sub_mod (2 ^ 64) len i) ≡ true = ground (arith, s) in
        let low : A = smaller x y in
        let high : A = larger x y in
        let front' : List A = front ++ (low ∷ []) in
        let longer : length front' ≡ length front + 1 = length-append front (low ∷ []) in
        rw go (
          rw (bubble_step_lem front (ys ++ tail) x y j e (omega arith)) (
            ap (bubble_pass swap_cb item_len fuel len i (u32 (j + 1)))
              (sym (append_assoc front (low ∷ []) (high ∷ (ys ++ tail))))
            ∙ (bubble_pass_lem ys fuel len i (u32 (j + 1)) front' tail high (omega (arith, longer))
                  (omega (arith, s)) (omega arith) (omega arith)
                ∙ ap some (
                    append_assoc front (low ∷ []) (bubble_up high ys ++ tail)
                    ∙ ap (λ t. front ++ (t ++ tail)) (sym (bubble_up_step x y ys))))))
