-- ===== src/Utils/RoundTrip.antt =====
-- Bit strings: what is read back of what was printed.
use mathlib.Core.List.{append_assoc}
use native.Mathlib.Nat.{
  zero-mul, one-mul, mod-lt, div-add-mod', add-mul, one-le-pow, two-pow-succ, pow-le-pow_right,
}
use Prim.Native.Nat.{bit_or}
use libhy_utils_bak.Base.{
  ℕ, zero, suc, ◌+◌, ◌-◌, ◌*◌, ◌/◌, ◌%◌, ◌^◌, ◌≤◌, ◌<◌, ◌≡◌, refl, sym, ap, ap₂, ◌∙◌, some, [], ◌∷◌,
  ◌++◌, Bytes, length, drop, get_elem?, u32, arith, length-append, get_elem?-append, replicate,
  ◌==◌, if◌then◌else◌,
}
use libhy_utils_bak.Bits.{bit_or-add, mod_unique, double-pow}
use libhy_utils_bak.Utils.{atoi_char, dec_of_bits, hy_bit_str_2_dec, hy_dec_2_bit_str}
use libhy_utils_bak.Utils.BitString.{digit, bits, dec_2_bit_str-bits}

-- the digit that a character stands for
atoi-digit : (num i : ℕ) → atoi_char (digit num i) ≡ num / 2 ^ i % 2
atoi-digit num i = cases (num / 2 ^ i % 2) (mod-lt (num / 2 ^ i) (omega arith))
  where
    cases : (q : ℕ) → q < 2 → atoi_char (if q == 0 then 48 else 49) ≡ q
    cases q h = ground arith

digit-le : (d p : ℕ) → d < 2 → d * p ≤ p
digit-le zero p h = omega (arith, zero-mul p)
digit-le (suc zero) p h = omega (arith, one-mul p)
digit-le (suc (suc d)) p h = absurd (omega arith)

top_digit : (num k : ℕ) → num % 2 ^ suc k ≡ num / 2 ^ k % 2 * 2 ^ k + num % 2 ^ k
top_digit num k =
    let q : ℕ = num / 2 ^ k in
    let p : ℕ = 2 ^ k in
    let pos : 0 < p = one-le-pow k 2 (omega arith) in
    let split : q * p ≡ q / 2 * p + q / 2 * p + q % 2 * p =
      ap (λ (t : ℕ). t * p) {x = q} {y = q / 2 + q / 2 + q % 2} (omega arith)
      ∙ (add-mul (q / 2 + q / 2) (q % 2) p
          ∙ ap (λ (t : ℕ). t + q % 2 * p) (add-mul (q / 2) (q / 2) p)) in
    mod_unique num (2 ^ suc k) (q / 2) (q % 2 * p + num % p)
      (omega (arith, double-pow (q / 2) k, div-add-mod' num p, split))
      (omega (arith, digit-le (q % 2) p (omega arith), mod-lt num pos, two-pow-succ k))

dec_step :
    (k i acc c : ℕ) (s : Bytes)
    → get_elem? s i ≡ some c
    → dec_of_bits (suc k) i s acc ≡ dec_of_bits k (suc i) s (bit_or acc (u32 (atoi_char c * 2 ^ k)))
unfolding dec_of_bits
dec_step k i acc c s e = rw e refl

-- Reading one digit doubles what has been read, and adds it.
accumulate :
    (k num x : ℕ)
    → suc k ≤ 32
    → bit_or (x * 2 ^ suc k) (u32 (atoi_char (digit num k) * 2 ^ k))
      ≡ (x + x + num / 2 ^ k % 2) * 2 ^ k
accumulate k num x h =
    let d : ℕ = num / 2 ^ k % 2 in
    let small : d < 2 = mod-lt (num / 2 ^ k) (omega arith) in
    let word : u32 (d * 2 ^ k) ≡ d * 2 ^ k = omega (
      arith,
      digit-le d (2 ^ k) small,
      pow-le-pow_right {n = 2} (omega arith) {i = k} {j = 31} (omega arith),
    ) in
    ap (λ (t : ℕ). bit_or (x * 2 ^ suc k) (u32 (t * 2 ^ k))) (atoi-digit num k)
    ∙ (ap (bit_or (x * 2 ^ suc k)) word
        ∙ (bit_or-add k x d small
            ∙ omega (arith, double-pow x k, add-mul (x + x) d (2 ^ k), add-mul x x (2 ^ k))))

dec_of_bits_lem :
    (k num x : ℕ) (front tail : Bytes)
    → k ≤ 32
    → dec_of_bits k (length front) (front ++ (bits k num ++ tail)) (x * 2 ^ k)
      ≡ some (x * 2 ^ k + num % 2 ^ k)
unfolding dec_of_bits
dec_of_bits_lem zero num x front tail h = ap some (omega arith)
dec_of_bits_lem (suc k) num x front tail h =
    let c : ℕ = digit num k in
    let d : ℕ = num / 2 ^ k % 2 in
    let rest : Bytes = bits k num ++ tail in
    let longer : length (front ++ (c ∷ [])) ≡ suc (length front) =
      omega (arith, length-append front (c ∷ [])) in
    dec_step k (length front) (x * 2 ^ suc k) c (front ++ (c ∷ rest)) (
      ap (get_elem? (front ++ (c ∷ rest))) {x = length front} {y = length front + 0} (omega arith)
      ∙ get_elem?-append front (c ∷ rest) 0)
    ∙ (ap (dec_of_bits k (suc (length front)) (front ++ (c ∷ rest))) (accumulate k num x h)
        ∙ (ap₂ (λ (l : ℕ) (s : Bytes). dec_of_bits k l s ((x + x + d) * 2 ^ k)) (sym longer)
              (sym (append_assoc front (c ∷ []) rest))
            ∙ (dec_of_bits_lem k num (x + x + d) (front ++ (c ∷ [])) tail (omega arith)
                ∙ ap some (
                    omega (
                      arith,
                      top_digit num k,
                      double-pow x k,
                      add-mul (x + x) d (2 ^ k),
                      add-mul x x (2 ^ k),
                    )))))

-- `HyBitStr2Dec` of what `HyDec2BitStr` has written gives the number back, modulo the digits
-- written, for at most 32 digits and an array that holds them and a NUL.
pub bit_str_2_dec-dec_2_bit_str :
    (num num_len str_len : ℕ) (bit_str : Bytes)
    → num_len ≤ 32
    → num_len < str_len
    → str_len ≤ length bit_str
    → str_len < 2 ^ 64
    → (s : Bytes) × (hy_dec_2_bit_str num num_len bit_str str_len ≡ some s)
      × (hy_bit_str_2_dec s num_len ≡ some (num % 2 ^ num_len))
unfolding hy_bit_str_2_dec
bit_str_2_dec-dec_2_bit_str num num_len str_len bit_str small more fits w =
    let tail : Bytes = replicate (str_len - num_len) 0 ++ drop str_len bit_str in
    (
      bits num_len num ++ tail,
      dec_2_bit_str-bits num num_len str_len bit_str small more fits w,
      ap (dec_of_bits num_len 0 (bits num_len num ++ tail)) (sym (zero-mul (2 ^ num_len)))
          ∙ (dec_of_bits_lem num_len num 0 [] tail small
              ∙ ap some (omega (arith, zero-mul (2 ^ num_len)))),
    )
