-- ===== src/Utils/Digits/Text.antt =====
-- Three digits for a byte: what is printed.
use mathlib.Core.List.{append_assoc}
use libhy_utils_bak.Base.{
  ℕ, suc, ◌+◌, ◌-◌, ◌*◌, ◌^◌, ◌≤◌, ◌<◌, ◌≡◌, refl, ap, ◌∙◌, some, [], ◌∷◌, ◌++◌, Bytes, length,
  drop, take, take-length, get_elem?, get_elem?-append, memcpy-overwrite, u8, u64, sub_mod, arith,
  length-append,
}
use libhy_utils_bak.Utils.{snprintf}
use libhy_utils_bak.Utils.BitString.{overwrite_middle}
use libhy_utils_bak.Utils.Digits.{digits3, digits_of_hex, hy_hex_2_int_2_str}

abbrev pub texts : Bytes → Bytes
texts [] = []
texts (x ∷ xs) = digits3 x ++ texts xs

abbrev pub AreBytes : Bytes → Type 0
AreBytes [] = Unit {0}
AreBytes (x ∷ xs) = (x < 2 ^ 8) × AreBytes xs

snprintf_digits :
    (xs zs : Bytes) (a b c d m x : ℕ)
    → snprintf
        (xs ++ ((a ∷ b ∷ c ∷ d ∷ []) ++ zs))
        (length xs)
        (suc (suc (suc (suc m))))
        (digits3 x)
      ≡ some (3, xs ++ ((digits3 x ++ (0 ∷ [])) ++ zs))
unfolding snprintf
snprintf_digits xs zs a b c d m x =
    let nil : take {A = ℕ} m [] ≡ [] = take-length m [] (omega arith) in
    rw nil (
      rw
        (memcpy-overwrite (xs ++ ((a ∷ b ∷ c ∷ d ∷ []) ++ zs)) (length xs) (digits3 x ++ (0 ∷ [])) 0
          4 (omega (arith, length-append xs ((a ∷ b ∷ c ∷ d ∷ []) ++ zs))) (omega arith))
        (ap (λ (t : Bytes). some (3, t))
          (overwrite_middle xs (a ∷ b ∷ c ∷ d ∷ []) (digits3 x ++ (0 ∷ [])) zs refl)))

-- one turn of the loop
print_turn :
    (done xs front zs : Bytes) (rest x a b c d str_len : ℕ)
    → x < 2 ^ 8
    → length front + 4 ≤ str_len
    → str_len < 2 ^ 64
    → digits_of_hex
        (suc rest)
        (length done)
        (length front)
        (done ++ (x ∷ xs))
        (front ++ ((a ∷ b ∷ c ∷ d ∷ []) ++ zs))
        str_len
      ≡ digits_of_hex rest
          (suc (length done))
          (length front + 3)
          (done ++ (x ∷ xs))
          (front ++ ((digits3 x ++ (0 ∷ [])) ++ zs))
          str_len
unfolding digits_of_hex
print_turn done xs front zs rest x a b c d str_len h fits w =
    let at : get_elem? (done ++ (x ∷ xs)) (length done) ≡ some x =
      ap (get_elem? (done ++ (x ∷ xs))) {x = length done} {y = length done + 0} (omega arith)
      ∙ get_elem?-append done (x ∷ xs) 0 in
    let room : sub_mod (2 ^ 64) str_len (length front)
        ≡ suc (suc (suc (suc (str_len - length front - 4)))) =
      omega arith in
    let byte : u8 x ≡ x = omega arith in
    let next : u64 (length front + 3) ≡ length front + 3 = omega arith in
    rw at (
      rw byte (
        rw room (
          rw (snprintf_digits front zs a b c d (str_len - length front - 4) x) (
            ap
              (λ (k : ℕ).
                digits_of_hex rest (suc (length done)) k (done ++ (x ∷ xs))
                  (front ++ ((digits3 x ++ (0 ∷ [])) ++ zs)) str_len)
              next))))

print_lem :
    (done xs front zs : Bytes) (str_len : ℕ)
    → AreBytes xs
    → length (texts xs) ≤ length zs
    → length front + suc (length (texts xs)) ≤ str_len
    → str_len < 2 ^ 64
    → digits_of_hex
        (length xs)
        (length done)
        (length front)
        (done ++ xs)
        (front ++ (0 ∷ zs))
        str_len
      ≡ some (front ++ (texts xs ++ (0 ∷ drop (length (texts xs)) zs)))
unfolding digits_of_hex
print_lem done [] front zs str_len b room fits w = refl
print_lem done (x ∷ xs) front [] str_len b room fits w = absurd (omega arith)
print_lem done (x ∷ xs) front (p ∷ []) str_len b room fits w = absurd (omega arith)
print_lem done (x ∷ xs) front (p ∷ q ∷ []) str_len b room fits w = absurd (omega arith)
print_lem done (x ∷ xs) front (p ∷ q ∷ r ∷ zs) str_len b room fits w =
    let front' : Bytes = front ++ digits3 x in
    let e1 : length (done ++ (x ∷ [])) ≡ suc (length done) =
      omega (arith, length-append done (x ∷ [])) in
    let e2 : length front' ≡ length front + 3 = omega (arith, length-append front (digits3 x)) in
    let go =
      print_lem (done ++ (x ∷ [])) xs front' zs str_len b.1 (omega arith) (omega (arith, e2)) w in
    let step_on =
      rw
        (
          e1,
          e2,
          append_assoc done (x ∷ []) xs,
          append_assoc front (digits3 x) (0 ∷ zs),
          append_assoc front (digits3 x) (texts xs ++ (0 ∷ drop (length (texts xs)) zs)),
        )
        at go in
    print_turn done xs front zs (length xs) x 0 p q r str_len b.0 (omega arith) w ∙ step_on

pub length-texts : (xs : Bytes) → length (texts xs) ≡ 3 * length xs
length-texts [] = refl
length-texts (x ∷ xs) = omega (arith, length-texts xs)

pub printed :
    (x : ℕ) (xs str : Bytes) (str_len : ℕ)
    → AreBytes (x ∷ xs)
    → 3 * length (x ∷ xs) < str_len
    → str_len ≤ length str
    → str_len < 2 ^ 64
    → (tail : Bytes) × (hy_hex_2_int_2_str (x ∷ xs) (length (x ∷ xs)) str str_len
        ≡ some (texts (x ∷ xs) ++ (0 ∷ tail)))
unfolding hy_hex_2_int_2_str
printed x xs [] str_len b fits size w = absurd (omega arith)
printed x xs (p ∷ []) str_len b fits size w = absurd (omega arith)
printed x xs (p ∷ q ∷ []) str_len b fits size w = absurd (omega arith)
printed x xs (p ∷ q ∷ r ∷ []) str_len b fits size w = absurd (omega arith)
printed x xs (p ∷ q ∷ r ∷ t ∷ zs) str_len b fits size w = (
  drop (length (texts xs)) zs,
  print_turn [] xs [] zs (length xs) x p q r t str_len b.0 (omega arith) w
      ∙ print_lem (x ∷ []) xs (digits3 x) zs str_len b.1 (omega (arith, length-texts xs))
          (omega (arith, length-texts xs)) w,
)
