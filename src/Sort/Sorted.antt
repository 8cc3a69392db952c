-- ===== src/Sort/Sorted.antt =====
-- Bubble sort sorts.
use mathlib.Core.Path.{subst}
use mathlib.Core.List.{append_assoc, append-nil, Permᴰ}
use mathlib.Core.List.Permᴰ
use libhy_utils_bak.Base.{
  ℕ, zero, suc, ◌+◌, ◌^◌, ◌<◌, ◌≡◌, refl, sym, ap, ap₂, ◌∙◌, Bool, true, false, not, ◌&&◌, ◌||◌,
  Option, some, List, [], ◌∷◌, ◌++◌, ltb, ◌==◌, if◌then◌else◌, ◌>>=◌, u32, length, arith,
  Bool-cases, inl, inr,
}
use libhy_utils_bak.Sort.{Sign, above_zero, bubble_pass, bubble_rounds, hy_sort_bubble}
use libhy_utils_bak.Sort.Pass.{bubble_up, bubble_pass_lem}

module _ {ℓ} {A : Type ℓ} (swap_cb : A → A → Sign) where
  -- the first is to stand behind the second
  abbrev pub above : A → A → Bool
  above x y = above_zero (swap_cb x y)

  -- no item of the list is above `m`
  abbrev pub all_up_to : List A → A → Bool
  all_up_to [] m = true
  all_up_to (x ∷ xs) m = not (above x m) && all_up_to xs m

  -- `x` is above no item of the list
  abbrev pub below_all : A → List A → Bool
  below_all x [] = true
  below_all x (y ∷ ys) = not (above x y) && below_all x ys

  -- no item is above a later one
  abbrev pub is_sorted : List A → Bool
  is_sorted [] = true
  is_sorted (x ∷ xs) = below_all x xs && is_sorted xs

  -- no item of the first list is above one of the second
  abbrev pub all_below_all : List A → List A → Bool
  all_below_all [] ys = true
  all_below_all (x ∷ xs) ys = below_all x ys && all_below_all xs ys

  rounds_step :
      (item_len fuel len i : ℕ) (array array' : List A) (r : Option (List A))
      → ltb i len ≡ true
      → bubble_pass swap_cb item_len len len i 0 array ≡ some array'
      → bubble_rounds swap_cb item_len fuel len (u32 (i + 1)) array' ≡ r
      → bubble_rounds swap_cb item_len (suc fuel) len i array ≡ r
  unfolding bubble_rounds
  rounds_step item_len fuel len i array array' r go passed h = rw go (rw passed h)

  bubble_call :
      (item_len len : ℕ) (array out : List A)
      → (len == 0) ≡ false
      → (item_len == 0) ≡ false
      → bubble_rounds swap_cb item_len (suc len) len 0 array ≡ some out
      → hy_sort_bubble swap_cb item_len true (some array) len ≡ some (some out)
  unfolding hy_sort_bubble
  bubble_call item_len len array out some_items wide h =
      ap
        (λ (b : Bool).
          if b
          then some (some array)
          else do array' ← bubble_rounds swap_cb item_len (suc len) len 0 array; some (some array'))
        {x = (len == 0) || ((item_len == 0) || not true)} {y = false} (rw (some_items, wide) refl)
      ∙ ap (λ (o : Option (List A)). o >>= (λ array'. some (some array'))) h

  module _ (asymmetric : (x y : A) → above x y ≡ true → above y x ≡ false)
      (transitive : (x y z : A) → above x y ≡ false → above y z ≡ false → above x z ≡ false) where
    -- what a pass leaves: its last item is one of the largest
    record Bubbled (x : A) (rest : List A) : Type ℓ where
      init : List A
      top : A
      result : bubble_up swap_cb x rest ≡ init ++ (top ∷ [])
      size : length init ≡ length rest
      largest : all_up_to init top ≡ true
      from : above x top ≡ false

    reflexive : (x : A) → above x x ≡ false
    reflexive x = elim (Bool-cases (above x x)) [ inl e ↦ asymmetric x x e | inr e ↦ e ]

    bubbled : (x : A) (rest : List A) → Bubbled x rest
    bubbled x [] = record {
      init = [];
      top = x;
      result = refl;
      size = refl;
      largest = refl;
      from = reflexive x;
    }
    bubbled x (y ∷ ys) = elim (Bool-cases (above x y)) [
      | inl e ↦
          let b = bubbled x ys in
          let under : above y b.top ≡ false = transitive y x b.top (asymmetric x y e) b.from in
          record {
            init = y ∷ b.init;
            top = b.top;
            result = rw e (ap (λ t. y ∷ t) b.result);
            size = ap suc b.size;
            largest = rw (under, b.largest) refl;
            from = b.from;
          }
      | inr e ↦
          let b = bubbled y ys in
          let under : above x b.top ≡ false = transitive x y b.top e b.from in
          record {
            init = x ∷ b.init;
            top = b.top;
            result = rw e (ap (λ t. x ∷ t) b.result);
            size = ap suc b.size;
            largest = rw (under, b.largest) refl;
            from = under;
          }
    ]

    bubble_up-perm : (x : A) (rest : List A) → Permᴰ (x ∷ rest) (bubble_up swap_cb x rest)
    bubble_up-perm x [] = Permᴰ.refl (x ∷ [])
    bubble_up-perm x (y ∷ ys) = elim (Bool-cases (above x y)) [
      | inl e ↦ rw e (Permᴰ.trans (Permᴰ.swap refl refl) (Permᴰ.cons refl (bubble_up-perm x ys)))
      | inr e ↦ rw e (Permᴰ.cons refl (bubble_up-perm y ys))
    ]

    below_all-bubble_up :
        (s : List A) (x : A) (rest : List A)
        → all_below_all (x ∷ rest) s ≡ true
        → all_below_all (bubble_up swap_cb x rest) s ≡ true
    below_all-bubble_up s x [] h = h
    below_all-bubble_up s x (y ∷ ys) h = elim (Bool-cases (above x y)) [
      | inl e ↦ rw e (ground (arith, h, below_all-bubble_up s x ys))
      | inr e ↦ rw e (ground (arith, h, below_all-bubble_up s y ys))
    ]

    below-split :
        (xs : List A) (top : A) (s : List A)
        → all_below_all (xs ++ (top ∷ [])) s ≡ true
        → all_up_to xs top ≡ true
        → (below_all top s ≡ true) × (all_below_all xs (top ∷ s) ≡ true)
    below-split [] top s h k = (ground (arith, h), refl)
    below-split (x ∷ xs) top s h k =
        let r = below-split xs top s (ground (arith, h)) (ground (arith, k)) in
        (r.0, ground (arith, h, k, r.1))

    -- what the loop over the passes leaves
    record IsSortOf (array : List A) (sorted : Option (List A)) : Type ℓ where
      out : List A
      result : sorted ≡ some out
      same : Permᴰ array out
      order : is_sorted out ≡ true

    bubble_rounds_lem :
        (item_len : ℕ) (small : ltb item_len (2 ^ 32) ≡ true) (fuel len i : ℕ) (front tail : List A)
        → length front < fuel
        → i ≡ length tail
        → len ≡ length front + i
        → len < 2 ^ 32
        → is_sorted tail ≡ true
        → all_below_all front tail ≡ true
        → IsSortOf (front ++ tail) (bubble_rounds swap_cb item_len fuel len i (front ++ tail))
    unfolding bubble_rounds
    bubble_rounds_lem item_len small zero len i front tail f e l w s c = absurd (omega arith)
    bubble_rounds_lem item_len small (suc fuel) len i [] tail f e l w s c =
        let stop : ltb i len ≡ false = ground (arith, l) in
        record { out = tail; result = rw stop refl; same = Permᴰ.refl tail; order = s }
    bubble_rounds_lem item_len small (suc fuel) len i (x ∷ rest) tail f e l w s c =
        let go : ltb i len ≡ true = ground (arith, l) in
        let b = bubbled x rest in
        let crossed : all_below_all (b.init ++ (b.top ∷ [])) tail ≡ true =
          ap (λ t. all_below_all t tail) (sym b.result) ∙ below_all-bubble_up tail x rest c in
        let split = below-split b.init b.top tail crossed b.largest in
        let regroup : bubble_up swap_cb x rest ++ tail ≡ b.init ++ (b.top ∷ tail) =
          ap (λ t. t ++ tail) b.result ∙ append_assoc b.init (b.top ∷ []) tail in
        let next : u32 (i + 1) ≡ suc i = omega arith in
        let later =
          bubble_rounds_lem item_len small fuel len (suc i) b.init (b.top ∷ tail)
            (omega (arith, b.size)) (omega arith) (omega (arith, b.size)) w
            (ground (arith, split.0, s)) split.1 in
        let passed =
          bubble_pass_lem swap_cb item_len small rest len len i 0 [] tail x refl (omega arith)
            (omega arith) (omega arith) in
        record {
          out = later.out;
          result =
              rounds_step item_len fuel len i (x ∷ (rest ++ tail))
                (bubble_up swap_cb x rest ++ tail) (some later.out) go passed
                (ap₂ (bubble_rounds swap_cb item_len fuel len) next regroup ∙ later.result);
          same =
              Permᴰ.trans (Permᴰ.append_right tail (bubble_up-perm x rest))
                (subst (λ t. Permᴰ t later.out) (sym regroup) later.same);
          order = later.order;
        }

    -- `HySortBubble`, on an array of fewer than 2^32 items, each of fewer than 2^32 bytes, with its block allocated, leaves the same
    -- items so that none is above a later one, when the comparison is that of a total preorder.
    pub hy_sort_bubble-sorts :
        (array : List A) (item_len : ℕ)
        → 0 < item_len
        → item_len < 2 ^ 32
        → length array < 2 ^ 32
        → (out : List A) × (hy_sort_bubble swap_cb item_len true (some array) (length array)
            ≡ some (some out))
          × Permᴰ array out
          × (is_sorted out ≡ true)
    unfolding hy_sort_bubble
    hy_sort_bubble-sorts [] item_len p v w = ([], refl, Permᴰ.nil, refl)
    hy_sort_bubble-sorts (x ∷ xs) item_len p v w =
        let small : ltb item_len (2 ^ 32) ≡ true = ground (arith, v) in
        let array : List A = x ∷ xs in
        let r =
          bubble_rounds_lem item_len small (suc (length array)) (length array) 0 array []
            (omega arith) refl (omega arith) w refl (no_tail array) in
        (
          r.out,
          bubble_call item_len (length array) array r.out (ground arith) (ground arith) (
              ap (bubble_rounds swap_cb item_len (suc (length array)) (length array) 0)
                (sym (append-nil array))
              ∙ r.result),
          subst (λ t. Permᴰ t r.out) (append-nil array) r.same,
          r.order,
        )
      where
        no_tail : (ys : List A) → all_below_all ys [] ≡ true
        no_tail [] = refl
        no_tail (y ∷ ys) = no_tail ys
